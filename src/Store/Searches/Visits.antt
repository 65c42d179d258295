-- ===== src/Store/Searches/Visits.antt =====
-- The backoffice's search, visited page by page.
use mathlib.Core.Path.{fun_ext}
use udesa_x_users_api.Common.{
  ℕ, zero, suc, ◌<◌, ◌≡◌, refl, ap, ◌∙◌, true, false, Option, none, some, List, [], ◌∷◌, nat_eq,
  any, all, keep, take, length, Text, arith, ==_sym,
}
use udesa_x_users_api.Model.Account.{User}
use udesa_x_users_api.Platform.{Platform}
use udesa_x_users_api.World.State.{World}
use udesa_x_users_api.World.Exec.{Result, ok, err}
use udesa_x_users_api.Store.Users.{same_account}
use udesa_x_users_api.Store.Users.Unique.{UsersApart}
use udesa_x_users_api.Store.Searches.{
  Cursor, matches_account, newest_first, page_of, selected, search_user_accounts,
}
use udesa_x_users_api.Store.Searches.Order.{other_id, IdsApart}
use udesa_x_users_api.Store.Searches.Pages.{show_page, follow, follow-whole}

other_id-same_account :
    (u : User) (users : List User)
    → any (same_account u) users ≡ false
    → all (other_id u) users ≡ true
other_id-same_account u [] h = refl
other_id-same_account u (v ∷ users) h =
    ground (arith, ==_sym u.id v.id, other_id-same_account u users)

UsersApart-IdsApart : (users : List User) → UsersApart users → IdsApart users
UsersApart-IdsApart [] h = tt
UsersApart-IdsApart (u ∷ users) h =
    (other_id-same_account u users h.0, UsersApart-IdsApart users h.1)

abbrev pub show_result : (Cursor → List User) → Result (List User × Option Cursor) → List User
show_result rest (ok page) = show_page rest page
show_result rest (err e) = []

module _ ⦃p : Platform⦄ (fragment : Text) (limit : ℕ) (w : World) where
  -- The rows shown to whoever asks for the first page and follows the cursors.
  abbrev pub visit : ℕ → Option Cursor → List User
  visit zero cursor = []
  visit (suc fuel) cursor =
      show_result (λ c. visit fuel (some c)) (search_user_accounts fragment cursor limit w).0

  visit-follow :
      (fuel : ℕ) (cursor : Option Cursor)
      → visit fuel cursor ≡ follow (matches_account fragment) limit fuel cursor w.db.users
  unfolding search_user_accounts
  visit-follow zero cursor = refl
  visit-follow (suc fuel) cursor =
      ap
        (λ rest. show_page rest (
          page_of limit (take (suc limit) (selected (matches_account fragment) cursor w.db.users))))
        (fun_ext (λ c. visit-follow fuel (some c)))

module _ ⦃p : Platform⦄ (fragment : Text) (k : ℕ) (w : World) where
  -- Following the cursors of the backoffice's search in pages of one row or more, the table unchanged
  -- meanwhile, ends within as many pages as there are matching accounts, and one more, and shows the
  -- whole result of the search: every matching account once, newest first.
  pub visit-whole :
      (fuel : ℕ)
      → UsersApart w.db.users
      → length (newest_first (keep (matches_account fragment) w.db.users)) < fuel
      → visit fragment (suc k) w fuel none
        ≡ newest_first (keep (matches_account fragment) w.db.users)
  visit-whole fuel apart enough =
      visit-follow fragment (suc k) w fuel none
      ∙ follow-whole (matches_account fragment) k w.db.users (UsersApart-IdsApart w.db.users apart)
          fuel enough
