-- ===== src/Service/AccountBlock.antt =====
-- src/users_api/app/services/account_block.py
pub mod Suspension
use udesa_x_users_api.Common.{ℕ, none, some, String, Text, ◌==◌, if◌then◌else◌}
use udesa_x_users_api.Config.{Settings}
use udesa_x_users_api.Model.Account.{
  suspended, User, status_eq, is_administrator, is_deleted, change_status,
}
use udesa_x_users_api.Model.Event.{user_blocked, details_reason}
use udesa_x_users_api.Model.Problem.{Problem, problem, says}
use udesa_x_users_api.Platform.{Platform}
use udesa_x_users_api.World.Exec.{Action, None, pure, or_raise, raise_if, utc_now, ◌>>=◌, ◌>>◌}
use udesa_x_users_api.Store.Users
use udesa_x_users_api.Store.RefreshTokens
use udesa_x_users_api.Cache.Sessions
use udesa_x_users_api.Service.Auth.Login.{session_seconds}
use udesa_x_users_api.Service.Audit.{record_action}

abbrev pub account_not_found : String → Problem
account_not_found title = record {
  http_status = 404;
  code = "account-not-found";
  title = title;
  detail = says "La cuenta no existe";
  retry_after = none;
}

abbrev pub block_failed_title : String
block_failed_title = "No se pudo bloquear la cuenta"

abbrev pub administrator_cannot_be_blocked : Problem
administrator_cannot_be_blocked = record {
  http_status = 422;
  code = "administrator-cannot-be-blocked";
  title = block_failed_title;
  detail = says "Las cuentas de administradores no se bloquean";
  retry_after = none;
}

module _ ⦃p : Platform⦄ (settings : Settings) where
  -- `block` once the account may be blocked.
  unfoldable pub suspend : User → User → Text → Action None
  suspend administrator user reason = do
    at ← utc_now
    Users.update (change_status user suspended at (some reason))
    record_action administrator.id user_blocked user.id (details_reason reason)
    RefreshTokens.revoke_all user.id at
    Sessions.revoke_all user.id at (session_seconds settings)

  unfoldable pub block : User → ℕ → Text → Action None
  unfolding suspend
  block administrator user_id reason = do
    found ← Users.get user_id
    user ← or_raise found (problem (account_not_found block_failed_title))
    raise_if (is_deleted user) (problem (account_not_found block_failed_title))
    raise_if (is_administrator user) (problem administrator_cannot_be_blocked)
    if user.status == suspended then pure tt else suspend administrator user reason
