-- ===== src/Integrity/Statements.antt =====
-- The statements on the tables and the commands on Redis keep the accounts and the tokens consistent.
use udesa_x_users_api.Common.{
  ℕ, [], ◌∷◌, ◌++◌, Text, any, Found, All-map_where, All-append, AllApart-append, Found-find?,
  nat_eq, Bool-cases, inl, inr,
}
use udesa_x_users_api.Model.Account.{User, Draft, is_administrator, is_deleted, status_eq}
use udesa_x_users_api.Platform.{Platform}
use udesa_x_users_api.World.Ensures.{Ensures, Keeps, gets-Ensures}
use udesa_x_users_api.Store.Users
use udesa_x_users_api.Store.Users.{
  is_too_wide, same_account, has_id, has_identifier, has_email, overwrite,
}
use udesa_x_users_api.Store.Users.Unique.{UsersApart, same_account_sym, update-UsersApart}
use udesa_x_users_api.Integrity.{IsSound, IsConsistent}

pub overwrite-IsSound : (u row : User) → IsSound u → IsSound row → IsSound (overwrite u row)
unfolding overwrite is_administrator is_deleted
overwrite-IsSound u row hu hrow = record {
  reason = hu.reason;
  dated = hu.dated;
  never_suspended = hu.never_suspended;
  never_deleted = hu.never_deleted;
  checked = hu.checked;
  due = hu.due;
  due_role = hu.due_role;
  email = hrow.email;
  handle = hrow.handle;
}

module _ ⦃p : Platform⦄ where
  -- An account that is read is one of the table.
  pub get-Ensures : (id : ℕ) → Ensures IsConsistent (Found IsSound) (Users.get id)
  unfolding Users.get
  get-Ensures id = gets-Ensures _ (λ w h. Found-find? IsSound (has_id id) w.db.users h.sound)

  pub find_by_identifier-Ensures :
      (identifier : Text)
      → Ensures IsConsistent (Found IsSound) (Users.find_by_identifier identifier)
  unfolding Users.find_by_identifier
  find_by_identifier-Ensures identifier =
      gets-Ensures _ (λ w h. Found-find? IsSound (has_identifier identifier) w.db.users h.sound)

  pub find_by_email-Ensures :
      (email : Text) → Ensures IsConsistent (Found IsSound) (Users.find_by_email email)
  unfolding Users.find_by_email
  find_by_email-Ensures email =
      gets-Ensures _ (λ w h. Found-find? IsSound (has_email email) w.db.users h.sound)

  pub update-Keeps : (u : User) → IsSound u → Keeps IsConsistent (Users.update u)
  unfolding Users.update
  update-Keeps u hu = record {
    at = λ w h. (
      record {
        apart = update-UsersApart w u h.apart;
        sound =
            All-map_where IsSound (has_id u.id) (overwrite u) w.db.users
              (λ row hrow. overwrite-IsSound u row hu hrow) h.sound;
        tokens = h.tokens;
      },
      tt,
    );
  }

  pub add-Ensures :
      (draft : Draft)
      → ((id created_at : ℕ) → IsSound (draft id created_at))
      → Ensures IsConsistent IsSound (Users.add draft)
  unfolding Users.add
  add-Ensures draft sound = record {
    at = λ w h.
        let row = draft (p.uuid4 w.drawn) w.clock in
        elim (Bool-cases (is_too_wide row)) [
          | inl wide ↦ rw wide (h, tt)
          | inr fits ↦ elim (Bool-cases (any (same_account row) w.db.users)) [
            | inl taken ↦ rw (fits, taken) (h, tt)
            | inr free ↦
                let apart : UsersApart (w.db.users ++ row ∷ []) =
                  AllApart-append same_account w.db.users row same_account_sym free h.apart in
                rw (fits, free)
                  (
                    record {
                      apart = apart;
                      sound = All-append IsSound w.db.users row h.sound (sound _ _);
                      tokens = h.tokens;
                    },
                    sound _ _,
                  )
          ]
        ];
  }
