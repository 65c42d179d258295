-- ===== src/Store/Users/Unique.antt =====
-- No two accounts share an id, an email or a handle.
use udesa_x_users_api.Common.{
  inl, inr, Bool-cases, ◌≡◌, refl, List, any, nat_eq, text_eq, ==_sym, AllApart, AllApart-map_where,
  AllApart-append,
}
use udesa_x_users_api.Model.Account.{User, Draft}
use udesa_x_users_api.Platform.{Platform}
use udesa_x_users_api.World.State.{World}
use udesa_x_users_api.Store.Users.{is_too_wide, same_account, has_id, overwrite, add, update}

abbrev pub UsersApart : List User → Type 0
UsersApart = AllApart same_account

pub same_account_sym : (a b : User) → same_account a b ≡ same_account b a
same_account_sym a b = cc (==_sym a.id b.id, ==_sym a.email b.email, ==_sym a.handle b.handle)

module _ ⦃p : Platform⦄ (w : World) where
  pub add-UsersApart : (draft : Draft) → UsersApart w.db.users → UsersApart (add draft w).1.db.users
  unfolding add
  add-UsersApart draft h =
      let row = draft (p.uuid4 w.drawn) w.clock in
      elim (Bool-cases (is_too_wide row)) [
        | inl wide ↦ rw wide h
        | inr fits ↦ elim (Bool-cases (any (same_account row) w.db.users)) [
          | inl taken ↦ rw (fits, taken) h
          | inr free ↦
              rw (fits, free) (AllApart-append same_account w.db.users row same_account_sym free h)
        ]
      ]

  pub update-UsersApart : (u : User) → UsersApart w.db.users → UsersApart (update u w).1.db.users
  unfolding update overwrite
  update-UsersApart u h =
      AllApart-map_where same_account (has_id u.id) (overwrite u) w.db.users (λ x y. refl)
        (λ x y. refl) h
