-- ===== src/Service/PasswordChange.antt =====
-- src/users_api/app/services/password_change.py
pub mod Consequences
use udesa_x_users_api.Common.{false, none, some, Text}
use udesa_x_users_api.Config.{Settings}
use udesa_x_users_api.Model.Account.{User}
use udesa_x_users_api.Model.Event.{password_changed}
use udesa_x_users_api.Model.Problem.{problem}
use udesa_x_users_api.Platform.{Platform}
use udesa_x_users_api.World.Exec.{Action, None, raise_if, utc_now, ◌>>=◌, ◌>>◌}
use udesa_x_users_api.Store.Users
use udesa_x_users_api.Store.RefreshTokens
use udesa_x_users_api.Store.Records.{build_event, add_event}
use udesa_x_users_api.Cache.Sessions
use udesa_x_users_api.Security.{hash_password, verify_password}
use udesa_x_users_api.Service.Auth.Login.{session_seconds}
use udesa_x_users_api.Service.CurrentPassword
use udesa_x_users_api.Service.PasswordReset.{change_failed_title, password_unchanged}

-- The account once its owner has chosen a password.
abbrev pub with_own_password : User → Text → User
with_own_password u password_hash = record u {
  password_hash = password_hash;
  must_change_password = false;
  temporary_password_expires_at = none;
}

module _ ⦃p : Platform⦄ (settings : Settings) where
  -- `change_password` once the current password is proven.
  unfoldable pub set_password : User → Text → Action None
  set_password user new_password = do
    raise_if (verify_password new_password (some user.password_hash)) (problem password_unchanged)
    password_hash ← hash_password new_password
    Users.update (with_own_password user password_hash)
    CurrentPassword.forget_attempts settings user
    at ← utc_now
    Sessions.revoke_all user.id at (session_seconds settings)
    RefreshTokens.revoke_all user.id at
    event ← build_event (password_changed user) at
    add_event event

  unfoldable pub change_password : User → Text → Text → Action None
  unfolding set_password
  change_password user current_password new_password = do
    CurrentPassword.verify settings user current_password change_failed_title
    set_password user new_password
