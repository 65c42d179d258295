-- ===== src/Api/Routes/Backoffice.antt =====
-- src/users_api/api/{admin_users,admin_user_accounts,admin_metrics,audit}.py: the routes of the
-- administrators. An id in a path is a UUID that was read.
use udesa_x_users_api.Common.{ℕ, ◌||◌, ◌++◌, Option, map, Text, codes, ltb, length}
use udesa_x_users_api.Text.Uuid.{str_uuid}
use udesa_x_users_api.Config.{Settings}
use udesa_x_users_api.Model.Account.{User}
use udesa_x_users_api.Model.Problem.{problem}
use udesa_x_users_api.Platform.{Platform}
use udesa_x_users_api.World.Exec.{Action, pure, or_raise, raise_if, utc_now, ◌>>=◌, ◌>>◌}
use udesa_x_users_api.Store.Searches.{list_administrators}
use udesa_x_users_api.Store.AuditLog.{list_page}
use udesa_x_users_api.Service.Admins
use udesa_x_users_api.Service.AdminUserAccounts
use udesa_x_users_api.Service.AccountBlock
use udesa_x_users_api.Service.Metrics
use udesa_x_users_api.Api.Schemas.{check_handle, check_reason}
use udesa_x_users_api.Api.Bodies.{
  Libraries, Headers, validation_failed, appointed_role, field, email_field,
}
use udesa_x_users_api.Api.Replies.{
  Reply, no_content, credentials, administrators, account_page, account, metrics, audit_page,
  credential, administrator_response, account_response,
}
use udesa_x_users_api.Api.CurrentUser.{require_superadmin, require_administrator}
use udesa_x_users_api.Api.Routes.Me.{current_user}

module _ ⦃p : Platform⦄ (settings : Settings) (headers : Headers) where
  -- `SuperadminDep` and `AdministratorDep`
  unfoldable pub superadmin : Text → Action User
  superadmin path = do user ← current_user settings headers path; require_superadmin user

  unfoldable pub administrator : Text → Action User
  administrator path = do user ← current_user settings headers path; require_administrator user

  unfoldable pub create_administrator : Libraries → Text → Text → Text → Action Reply
  unfolding check_handle
  create_administrator lib email handle role = do
    actor ← superadmin (codes "/api/admin/users")
    email ← email_field lib email
    handle ← field (check_handle handle)
    role ← or_raise (appointed_role role) (problem validation_failed)
    (user, temporary_password) ← Admins.create_administrator settings actor.id email handle role
    pure (credentials (credential user temporary_password))

  unfoldable pub reset_temporary_password : ℕ → Action Reply
  reset_temporary_password user_id = do
    actor ←
        superadmin
          (codes "/api/admin/users/" ++ str_uuid user_id ++ codes "/reset-temporary-password")
    (user, temporary_password) ← Admins.reset_temporary_password user_id actor.id
    pure (credentials (credential user temporary_password))

  unfoldable pub list_administrators_route : Action Reply
  list_administrators_route = do
    superadmin (codes "/api/admin/users")
    at ← utc_now
    users ← list_administrators
    pure (administrators (map (administrator_response at) users))

  unfoldable pub search_accounts : Libraries → Text → Option Text → Action Reply
  search_accounts lib q cursor = do
    administrator (codes "/api/admin/users/search")
    raise_if (ltb 100 (length q)) (problem validation_failed)
    (users, next_cursor) ← AdminUserAccounts.search lib.other_spelling q cursor
    pure (account_page (map account_response users) next_cursor)

  unfoldable pub account_detail : ℕ → Action Reply
  account_detail user_id = do
    administrator (codes "/api/admin/users/" ++ str_uuid user_id)
    user ← AdminUserAccounts.account user_id
    pure (account (account_response user))

  unfoldable pub block_account : ℕ → Text → Action Reply
  unfolding check_reason
  block_account user_id reason = do
    actor ← administrator (codes "/api/admin/users/" ++ str_uuid user_id ++ codes "/block")
    reason ← field (check_reason reason)
    AccountBlock.block settings actor user_id reason
    pure no_content

  unfoldable pub account_metrics : Action Reply
  account_metrics = do
    administrator (codes "/api/admin/metrics")
    numbers ← Metrics.account_metrics
    pure (metrics numbers)

  unfoldable pub list_audit_entries : ℕ → ℕ → Action Reply
  list_audit_entries limit offset = do
    administrator (codes "/api/admin/audit")
    raise_if (ltb limit 1 || ltb 100 limit) (problem validation_failed)
    (page, total) ← list_page limit offset
    pure (audit_page page total)
