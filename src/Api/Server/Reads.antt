-- ===== src/Api/Server/Reads.antt =====
-- The services that only read keep the accounts and the tokens consistent.
use udesa_x_users_api.Common.{
  ℕ, zero, suc, refl, Bool, not, ◌||◌, Option, none, some, List, [], ◌++◌, map, Text, ◌==◌, nat_eq,
  ltb, length, any, keep,
}
use udesa_x_users_api.Text.{strip}
use udesa_x_users_api.Model.Account.{User, is_deleted, is_administrator}
use udesa_x_users_api.Model.Problem.{problem}
use udesa_x_users_api.Platform.{Platform}
use udesa_x_users_api.World.Exec.{Action}
use udesa_x_users_api.World.Ensures.{
  Keeps, ◌▹◌, raise_if-Keeps, if-Ensures, pure-Keeps, or_raise-Ensures, or_raise-Keeps,
}
use udesa_x_users_api.Store.Users.{count_users}
use udesa_x_users_api.Store.Searches.{
  Cursor, last_position, search_batch_size, search_user_accounts, search_public_accounts,
  list_administrators,
}
use udesa_x_users_api.Store.AuditLog.{list_page}
use udesa_x_users_api.Service.Profile.{profile_not_found, public_profile}
use udesa_x_users_api.Service.Metrics.{account_metrics}
use udesa_x_users_api.Service.AdminUserAccounts
use udesa_x_users_api.Service.AdminUserAccounts.{
  min_query_length, page_size, search_query_too_short, account,
}
use udesa_x_users_api.Store.Cursors.{invalid_cursor, decode_cursor, read_cursor, next_text}
use udesa_x_users_api.Service.Search.{
  invalid_query, search_unavailable, fragment_of, is_excluded, first_page, look_at, collect, search,
}
use udesa_x_users_api.Integrity.{IsConsistent}
use udesa_x_users_api.Integrity.Statements.{get-Ensures}
use udesa_x_users_api.Integrity.Redis.{quiet-Keeps}

module _ ⦃p : Platform⦄ where
  pub list_page-Keeps : (limit offset : ℕ) → Keeps IsConsistent (list_page limit offset)
  unfolding list_page
  list_page-Keeps limit offset = quiet-Keeps _ (λ w. refl)

  pub list_administrators-Keeps : Keeps IsConsistent list_administrators
  unfolding list_administrators
  list_administrators-Keeps = quiet-Keeps _ (λ w. refl)

  pub account_metrics-Keeps : Keeps IsConsistent account_metrics
  unfolding account_metrics count_users
  account_metrics-Keeps = quiet-Keeps _ (λ w. refl)

  pub public_profile-Keeps : (user_id : ℕ) → Keeps IsConsistent (public_profile user_id)
  unfolding public_profile
  public_profile-Keeps user_id = get-Ensures user_id ▹ λ found sound.
      or_raise-Ensures found (problem profile_not_found) sound ▹ λ user _.
      raise_if-Keeps (is_deleted user) (problem profile_not_found) ▹ λ _ _. pure-Keeps user

  pub account-Keeps : (user_id : ℕ) → Keeps IsConsistent (account user_id)
  unfolding account
  account-Keeps user_id = get-Ensures user_id ▹ λ found sound.
      or_raise-Ensures found (problem profile_not_found) sound ▹ λ user _.
      raise_if-Keeps (is_deleted user || is_administrator user) (problem profile_not_found) ▹ λ _ _.
      pure-Keeps user

  search_user_accounts-Keeps :
      (fragment : Text) (cursor : Option Cursor) (limit : ℕ)
      → Keeps IsConsistent (search_user_accounts fragment cursor limit)
  unfolding search_user_accounts
  search_user_accounts-Keeps fragment cursor limit = quiet-Keeps _ (λ w. refl)

  read_cursor-Keeps :
      (other_spelling : List ℕ → Option Cursor) (cursor : Option Text)
      → Keeps IsConsistent (read_cursor other_spelling cursor)
  unfolding read_cursor
  read_cursor-Keeps other_spelling none = pure-Keeps none
  read_cursor-Keeps other_spelling (some value) =
      or_raise-Keeps (decode_cursor other_spelling value) (problem invalid_cursor) ▹ λ cursor _.
      pure-Keeps (some cursor)

  pub search_accounts-Keeps :
      (other_spelling : List ℕ → Option Cursor) (query : Text) (cursor : Option Text)
      → Keeps IsConsistent (AdminUserAccounts.search other_spelling query cursor)
  unfolding AdminUserAccounts.search
  search_accounts-Keeps other_spelling query cursor =
      raise_if-Keeps (ltb (length (strip query)) min_query_length) (problem search_query_too_short)
      ▹ λ _ _. read_cursor-Keeps other_spelling cursor ▹ λ position _.
          search_user_accounts-Keeps (strip query) position page_size ▹ λ found _.
          let (users, next) = found in pure-Keeps (users, next_text next)

  search_public_accounts-Keeps :
      (fragment : Text) (handle_only : Bool) (cursor : Option Cursor)
      → Keeps IsConsistent (search_public_accounts fragment handle_only cursor)
  unfolding search_public_accounts
  search_public_accounts-Keeps fragment handle_only cursor = quiet-Keeps _ (λ w. refl)

module _ ⦃p : Platform⦄ (blocks : List ℕ → Option (List ℕ)) where
  look_at-Keeps :
      (go : Option Cursor → List User → Action (List User)) (visible candidates : List User)
      → ((cursor : Option Cursor) (seen : List User) → Keeps IsConsistent (go cursor seen))
      → Keeps IsConsistent (look_at blocks go visible candidates)
  unfolding look_at
  look_at-Keeps go visible candidates later =
      if-Ensures (length candidates == 0) (λ _. pure-Keeps visible)
        λ _.
          or_raise-Keeps (blocks (map (λ u. u.id) candidates)) (problem search_unavailable)
          ▹ λ excluded _.
              let seen = visible ++ keep (λ u. not (is_excluded excluded u)) candidates in
              if-Ensures (ltb (length candidates) search_batch_size) (λ _. pure-Keeps seen)
                (λ _. later (last_position candidates) seen)

  collect-Keeps :
      (fragment : Text) (handle_only : Bool) (fuel : ℕ) (cursor : Option Cursor)
      (visible : List User)
      → Keeps IsConsistent (collect blocks fragment handle_only fuel cursor visible)
  unfolding collect
  collect-Keeps fragment handle_only zero cursor visible = pure-Keeps visible
  collect-Keeps fragment handle_only (suc fuel) cursor visible =
      if-Ensures (not (ltb (length visible) 21)) (λ _. pure-Keeps visible)
        λ _. search_public_accounts-Keeps fragment handle_only cursor ▹ λ candidates _.
          look_at-Keeps (collect blocks fragment handle_only fuel) visible candidates
            (λ cursor seen. collect-Keeps fragment handle_only fuel cursor seen)

  pub search-Keeps :
      (other_spelling : List ℕ → Option Cursor) (fuel : ℕ) (query : Text) (cursor : Option Text)
      → Keeps IsConsistent (search blocks other_spelling fuel query cursor)
  unfolding search
  search-Keeps other_spelling fuel query cursor =
      let (fragment, handle_only) = fragment_of (strip query) in
      raise_if-Keeps (any (λ c. c == 0) fragment || ltb (length fragment) 3) (problem invalid_query)
      ▹ λ _ _. read_cursor-Keeps other_spelling cursor ▹ λ position _.
          collect-Keeps fragment handle_only fuel position [] ▹ λ visible _.
          let (candidates, next) = first_page visible in pure-Keeps (candidates, next_text next)
