-- ===== src/Api/Server/Routes/Backoffice.antt =====
-- Each route of the administrators keeps the accounts and the tokens consistent.
use udesa_x_users_api.Common.{ℕ, ◌||◌, ◌++◌, Option, map, Text, codes, ltb, length}
use udesa_x_users_api.Text.Uuid.{str_uuid}
use udesa_x_users_api.Config.{Settings}
use udesa_x_users_api.Model.Problem.{problem}
use udesa_x_users_api.Platform.{Platform}
use udesa_x_users_api.World.Ensures.{
  Keeps, ◌▹◌, raise_if-Keeps, pure-Keeps, utc_now-Keeps, or_raise-Ensures,
}
use udesa_x_users_api.Api.Schemas.{check_handle, check_reason}
use udesa_x_users_api.Api.Bodies.{Libraries, Headers, validation_failed, appointed_role}
use udesa_x_users_api.Api.Replies.{
  no_content, credentials, administrators, account_page, account, metrics, audit_page, credential,
  administrator_response, account_response,
}
use udesa_x_users_api.Api.Routes.Backoffice
use udesa_x_users_api.Api.Server.Callers.{superadmin-Ensures, administrator-Ensures}
use udesa_x_users_api.Api.Server.Fields.{appointed_role-Found, field-Keeps, email_field-Keeps}
use udesa_x_users_api.Api.Server.Reads.{
  list_page-Keeps, list_administrators-Keeps, account_metrics-Keeps, account-Keeps,
  search_accounts-Keeps,
}
use udesa_x_users_api.Integrity.{IsConsistent}
use udesa_x_users_api.Integrity.Administration.{
  create_administrator-Keeps, reset_temporary_password-Keeps, block-Keeps,
}

module _ ⦃p : Platform⦄ (lib : Libraries) (settings : Settings) (headers : Headers) where
  pub search_accounts_call-Keeps :
      (q : Text) (cursor : Option Text)
      → Keeps IsConsistent (Backoffice.search_accounts settings headers lib q cursor)
  unfolding Backoffice.search_accounts
  search_accounts_call-Keeps q cursor =
      administrator-Ensures settings headers (codes "/api/admin/users/search") ▹ λ _ _.
      raise_if-Keeps (ltb 100 (length q)) (problem validation_failed) ▹ λ _ _.
      search_accounts-Keeps lib.other_spelling q cursor ▹ λ found _.
      let (users, next_cursor) = found in
      pure-Keeps (account_page (map account_response users) next_cursor)

  pub create_administrator_call-Keeps :
      (email handle role : Text)
      → Keeps IsConsistent (Backoffice.create_administrator settings headers lib email handle role)
  unfolding Backoffice.create_administrator
  create_administrator_call-Keeps email handle role =
      superadmin-Ensures settings headers (codes "/api/admin/users") ▹ λ actor _.
      email_field-Keeps lib email ▹ λ email _. field-Keeps (check_handle handle) ▹ λ handle _.
      or_raise-Ensures (appointed_role role) (problem validation_failed) (appointed_role-Found role)
      ▹ λ role appointed.
          create_administrator-Keeps settings actor.id email handle role appointed ▹ λ made _.
          let (user, temporary_password) = made in
          pure-Keeps (credentials (credential user temporary_password))

  pub reset_temporary_password_call-Keeps :
      (user_id : ℕ)
      → Keeps IsConsistent (Backoffice.reset_temporary_password settings headers user_id)
  unfolding Backoffice.reset_temporary_password
  reset_temporary_password_call-Keeps user_id =
      superadmin-Ensures settings headers
        (codes "/api/admin/users/" ++ str_uuid user_id ++ codes "/reset-temporary-password")
      ▹ λ actor _. reset_temporary_password-Keeps user_id actor.id ▹ λ made _.
          let (user, temporary_password) = made in
          pure-Keeps (credentials (credential user temporary_password))

  pub account_detail_call-Keeps :
      (user_id : ℕ) → Keeps IsConsistent (Backoffice.account_detail settings headers user_id)
  unfolding Backoffice.account_detail
  account_detail_call-Keeps user_id =
      administrator-Ensures settings headers (codes "/api/admin/users/" ++ str_uuid user_id)
      ▹ λ _ _. account-Keeps user_id ▹ λ user _. pure-Keeps (account (account_response user))

  pub list_administrators_call-Keeps :
      Keeps IsConsistent (Backoffice.list_administrators_route settings headers)
  unfolding Backoffice.list_administrators_route
  list_administrators_call-Keeps =
      superadmin-Ensures settings headers (codes "/api/admin/users") ▹ λ _ _.
      utc_now-Keeps ▹ λ at _. list_administrators-Keeps ▹ λ users _.
      pure-Keeps (administrators (map (administrator_response at) users))

  pub account_metrics_call-Keeps : Keeps IsConsistent (Backoffice.account_metrics settings headers)
  unfolding Backoffice.account_metrics
  account_metrics_call-Keeps =
      administrator-Ensures settings headers (codes "/api/admin/metrics") ▹ λ _ _.
      account_metrics-Keeps ▹ λ numbers _. pure-Keeps (metrics numbers)

  pub block_account_call-Keeps :
      (user_id : ℕ) (reason : Text)
      → Keeps IsConsistent (Backoffice.block_account settings headers user_id reason)
  unfolding Backoffice.block_account
  block_account_call-Keeps user_id reason =
      administrator-Ensures settings headers
        (codes "/api/admin/users/" ++ str_uuid user_id ++ codes "/block")
      ▹ λ actor _. field-Keeps (check_reason reason) ▹ λ reason _.
          block-Keeps settings actor user_id reason ▹ λ _ _. pure-Keeps no_content

  pub list_audit_entries_call-Keeps :
      (limit offset : ℕ)
      → Keeps IsConsistent (Backoffice.list_audit_entries settings headers limit offset)
  unfolding Backoffice.list_audit_entries
  list_audit_entries_call-Keeps limit offset =
      administrator-Ensures settings headers (codes "/api/admin/audit") ▹ λ _ _.
      raise_if-Keeps (ltb limit 1 || ltb 100 limit) (problem validation_failed) ▹ λ _ _.
      list_page-Keeps limit offset ▹ λ found _.
      let (page, total) = found in pure-Keeps (audit_page page total)
