-- ===== src/Service/Auth/Registration/Accounts.antt =====
-- The accounts that registration makes.
use udesa_x_users_api.Common.{
  suc, ◌≡◌, refl, inl, inr, Bool-cases, AllApart-append, find?-append, is_some-find?, ==_refl,
  text_eq, nat_eq, true, false, some, [], ◌∷◌, ◌++◌, Text, any, find?, arith, if◌then◌else◌,
}
use udesa_x_users_api.Text.{normalise}
use udesa_x_users_api.Config.{Settings}
use udesa_x_users_api.Model.Account.{User}
use udesa_x_users_api.Model.Problem.{problem}
use udesa_x_users_api.Platform.{Platform}
use udesa_x_users_api.World.State.{World}
use udesa_x_users_api.World.Exec.{ok, err}
use udesa_x_users_api.Store.Users
use udesa_x_users_api.Store.Users.{has_email_or_handle, has_identifier, is_too_wide, same_account}
use udesa_x_users_api.Store.Users.Unique.{UsersApart, same_account_sym}
use udesa_x_users_api.Store.VerificationTokens
use udesa_x_users_api.Store.Records.{build_event, add_event}
use udesa_x_users_api.Security.Passwords.{verify_password-hash}
use udesa_x_users_api.Security.{verify_password, hash_password, generate_emailed_token}
use udesa_x_users_api.Service.Auth.Registration.{
  new_account, account_already_exists, issue_verification_token, register,
}

module _ ⦃p : Platform⦄ (settings : Settings) (email handle password : Text) where
  -- An email or a handle that some account has, in whatever letter case and with spaces around it, is
  -- refused with 409 and nothing changes.
  pub register-taken :
      (w : World)
      → any (has_email_or_handle (normalise email) (normalise handle)) w.db.users ≡ true
      → register settings email handle password w ≡ (err (problem account_already_exists), w)
  unfolding register Users.exists_with_email_or_handle
  register-taken w taken = ground (arith, taken)

  -- The account that registration stores, if it gets there.
  abbrev pub registered : World → User
  registered w =
      new_account (normalise email) (normalise handle) (p.argon2_hash w.drawn password) w.clock
        (p.uuid4 (suc w.drawn)) w.clock

  users-register :
      (w : World)
      → (register settings email handle password w).1.db.users ≡ (
          if any (has_email_or_handle (normalise email) (normalise handle)) w.db.users
          then w.db.users
          else if is_too_wide (registered w)
          then w.db.users
          else if any (same_account (registered w)) w.db.users
          then w.db.users
          else w.db.users ++ registered w ∷ [])
  unfolding register Users.exists_with_email_or_handle Users.add hash_password
      issue_verification_token VerificationTokens.add generate_emailed_token build_event add_event
  users-register w = ground arith

  -- However registration ends, no two accounts come to share an id, an email or a handle.
  pub register-UsersApart :
      (w : World)
      → UsersApart w.db.users
      → UsersApart (register settings email handle password w).1.db.users
  register-UsersApart w h =
      rw (users-register w)
        (elim (Bool-cases
          (any (has_email_or_handle (normalise email) (normalise handle)) w.db.users)) [
            | inl taken ↦ rw taken h
            | inr free ↦ elim (Bool-cases (is_too_wide (registered w))) [
              | inl wide ↦ rw (free, wide) h
              | inr fits ↦ elim (Bool-cases (any (same_account (registered w)) w.db.users)) [
                | inl clash ↦ rw (free, fits, clash) h
                | inr new ↦
                    rw (free, fits, new)
                      (AllApart-append same_account w.db.users (registered w) same_account_sym new
                        h)
              ]
            ]
          ])

  pub register-ends :
      (w : World) (user : User)
      → (register settings email handle password w).0 ≡ ok user
      → (any (has_email_or_handle (normalise email) (normalise handle)) w.db.users ≡ false)
        × (is_too_wide (registered w) ≡ false)
        × (any (same_account (registered w)) w.db.users ≡ false)
        × (user ≡ registered w)
  unfolding register Users.exists_with_email_or_handle Users.add hash_password
      issue_verification_token VerificationTokens.add generate_emailed_token build_event add_event
  register-ends w user h = (ground arith, ground arith, ground arith, ground arith)

  -- An account that registration returns is unverified and has the normal form of the email and of the
  -- handle, and its hash verifies the password. Where no earlier account had that email for its email or
  -- handle, every spelling of the email, in any letter case and with spaces around it, finds the account
  -- from then on.
  pub register-stores :
      (w : World) (user : User) (spelling : Text)
      → (register settings email handle password w).0 ≡ ok user
      → normalise spelling ≡ normalise email
      → any (has_identifier (normalise email)) w.db.users ≡ false
      → (user.email ≡ normalise email)
        × (user.handle ≡ normalise handle)
        × (user.is_email_verified ≡ false)
        × (verify_password password (some user.password_hash) ≡ true)
        × (find?
              (has_identifier (normalise spelling))
              (register settings email handle password w).1.db.users
            ≡ some user)
  register-stores w user spelling h same free =
      let (untaken, fits, new, e) = register-ends w user h in
      rw (e, same, users-register w, untaken, fits, new)
        (
          refl,
          refl,
          refl,
          verify_password-hash w.drawn password,
          rw
              (
                find?-append (has_identifier (normalise email)) w.db.users (registered w ∷ []),
                is_some-find? (has_identifier (normalise email)) w.db.users,
                free,
                ==_refl (normalise email),
              )
              refl,
        )
