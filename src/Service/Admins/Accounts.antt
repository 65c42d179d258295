-- ===== src/Service/Admins/Accounts.antt =====
-- The accounts that the seed and the panel make.
use udesa_x_users_api.Common.{
  suc, ◌≡◌, none, some, [], ◌∷◌, ◌++◌, any, Text, nat_eq, text_eq, arith, if◌then◌else◌,
  is_some-find?,
}
use udesa_x_users_api.Text.{normalise}
use udesa_x_users_api.Model.Account.{User}
use udesa_x_users_api.Model.Problem.{integrity_error, data_error}
use udesa_x_users_api.Platform.{Platform}
use udesa_x_users_api.World.State.{World}
use udesa_x_users_api.World.Exec.{ok, err}
use udesa_x_users_api.Store.Users
use udesa_x_users_api.Store.Users.{has_email, is_too_wide, same_account}
use udesa_x_users_api.Security.{hash_password}
use udesa_x_users_api.Service.Admins.{seeded_superadmin, ensure_superadmin}

module _ ⦃p : Platform⦄ (email handle password : Text) (w : World) where
  abbrev pub seeded : User
  seeded =
      seeded_superadmin (normalise email) (normalise handle) (p.argon2_hash w.drawn password)
        w.clock (p.uuid4 (suc w.drawn)) w.clock

  -- The seed does nothing where the address is taken, whatever account has it. Otherwise it stores the
  -- superadmin, unless the address has more than 320 characters or the handle more than 16, or another
  -- account has its handle or its id: then the seed fails on the column, and no account is stored.
  pub ensure_superadmin-outcomes :
      let (r, w') = ensure_superadmin email handle password w in
      (r ≡ (
        if any (has_email (normalise email)) w.db.users
        then ok none
        else if is_too_wide seeded
        then err data_error
        else if any (same_account seeded) w.db.users
        then err integrity_error
        else ok (some seeded)))
      × (w'.db.users ≡ (
          if any (has_email (normalise email)) w.db.users
          then w.db.users
          else if is_too_wide seeded
          then w.db.users
          else if any (same_account seeded) w.db.users
          then w.db.users
          else w.db.users ++ seeded ∷ []))
  unfolding ensure_superadmin Users.find_by_email Users.add hash_password
  ensure_superadmin-outcomes = (
    ground (arith, is_some-find? (has_email (normalise email)) w.db.users),
    ground (arith, is_some-find? (has_email (normalise email)) w.db.users),
  )
