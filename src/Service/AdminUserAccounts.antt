-- ===== src/Service/AdminUserAccounts.antt =====
-- src/users_api/app/services/admin_user_accounts.py
use udesa_x_users_api.Common.{ℕ, ◌||◌, Option, none, List, Text, length, ltb}
use udesa_x_users_api.Text.{strip}
use udesa_x_users_api.Model.Account.{User, is_deleted, is_administrator}
use udesa_x_users_api.Model.Problem.{Problem, problem, says_with}
use udesa_x_users_api.Platform.{Platform}
use udesa_x_users_api.World.Exec.{Action, pure, raise_if, or_raise, ◌>>=◌, ◌>>◌}
use udesa_x_users_api.Store.Users
use udesa_x_users_api.Store.Searches.{Cursor, search_user_accounts}
use udesa_x_users_api.Store.Cursors.{read_cursor, next_text}
use udesa_x_users_api.Service.Profile.{profile_not_found}

abbrev pub page_size : ℕ
page_size = 20

abbrev pub min_query_length : ℕ
min_query_length = 3

abbrev pub search_query_too_short : Problem
search_query_too_short = record {
  http_status = 422;
  code = "search-query-too-short";
  title = "No se pudo buscar";
  detail = says_with "La búsqueda necesita al menos " min_query_length " caracteres";
  retry_after = none;
}

module _ ⦃p : Platform⦄ where
  unfoldable pub search :
      (other_spelling : List ℕ → Option Cursor) (query : Text) (cursor : Option Text)
      → Action (List User × Option Text)
  unfolding read_cursor
  search other_spelling query cursor = do
    let fragment = strip query
    raise_if (ltb (length fragment) min_query_length) (problem search_query_too_short)
    position ← read_cursor other_spelling cursor
    (users, next) ← search_user_accounts fragment position page_size
    pure (users, next_text next)

  unfoldable pub account : ℕ → Action User
  account user_id = do
    found ← Users.get user_id
    user ← or_raise found (problem profile_not_found)
    raise_if (is_deleted user || is_administrator user) (problem profile_not_found)
    pure user
