-- ===== src/Service/AccountDeletion.antt =====
-- src/users_api/app/services/account_deletion.py
pub mod Budget
pub mod Consequences
use udesa_x_users_api.Common.{ℕ, none, some, String, Text}
use udesa_x_users_api.Config.{Settings}
use udesa_x_users_api.Model.Account.{User, is_administrator}
use udesa_x_users_api.Model.Event.{user_deleted}
use udesa_x_users_api.Model.Problem.{Problem, problem, says}
use udesa_x_users_api.Platform.{Platform}
use udesa_x_users_api.World.Exec.{Action, None, raise_if, utc_now, ◌>>=◌, ◌>>◌}
use udesa_x_users_api.Store.Users
use udesa_x_users_api.Store.RefreshTokens
use udesa_x_users_api.Store.Records.{build_event, add_event}
use udesa_x_users_api.Cache.Sessions
use udesa_x_users_api.Service.Auth.Login.{session_seconds}
use udesa_x_users_api.Service.CurrentPassword

abbrev pub deletion_failed_title : String
deletion_failed_title = "No se pudo dar de baja la cuenta"

abbrev pub administrator_cannot_delete_account : Problem
administrator_cannot_delete_account = record {
  http_status = 403;
  code = "administrator-cannot-delete-account";
  title = deletion_failed_title;
  detail = says "Las cuentas de administrador no se dan de baja desde la app";
  retry_after = none;
}

abbrev pub deleted : User → ℕ → User
deleted u at = record u { deleted_at = some at }

module _ ⦃p : Platform⦄ (settings : Settings) where
  -- `delete_account` once the password is proven.
  unfoldable pub close_account : User → Action None
  close_account user = do
    at ← utc_now
    Users.update (deleted user at)
    event ← build_event (user_deleted user) at
    add_event event
    Sessions.revoke_all user.id at (session_seconds settings)
    RefreshTokens.revoke_all user.id at

  unfoldable pub delete_account : User → Text → Action None
  unfolding close_account
  delete_account user current_password = do
    raise_if (is_administrator user) (problem administrator_cannot_delete_account)
    CurrentPassword.verify settings user current_password deletion_failed_title
    close_account user
