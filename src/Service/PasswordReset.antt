-- ===== src/Service/PasswordReset.antt =====
-- src/users_api/app/services/password_reset.py
pub mod Consequences
pub mod Expired
pub mod Requests
pub mod Silence
use udesa_x_users_api.Common.{
  ℕ, ◌+◌, ◌*◌, not, Option, none, some, ◌++◌, String, Text, codes, ltb, if◌then◌else◌,
}
use udesa_x_users_api.Text.{normalise}
use udesa_x_users_api.Config.{Settings}
use udesa_x_users_api.Model.Account.{User, can_log_in}
use udesa_x_users_api.Model.Token.{PasswordResetToken, reset_is_usable}
use udesa_x_users_api.Model.Event.{password_reset_requested}
use udesa_x_users_api.Model.Problem.{Problem, problem, says, says_with}
use udesa_x_users_api.Platform.{Platform, second}
use udesa_x_users_api.World.Exec.{
  Action, None, pure, raise, raise_if, attribute_of, utc_now, ◌>>=◌, ◌>>◌,
}
use udesa_x_users_api.Store.Users
use udesa_x_users_api.Store.ResetTokens
use udesa_x_users_api.Store.RefreshTokens
use udesa_x_users_api.Store.Records.{build_event, add_event}
use udesa_x_users_api.Cache.RateLimiter
use udesa_x_users_api.Cache.Sessions
use udesa_x_users_api.Security.{hash_password, verify_password, hash_token, generate_emailed_token}
use udesa_x_users_api.Service.Auth.Login.{session_seconds}

abbrev pub change_failed_title : String
change_failed_title = "No se pudo cambiar la contraseña"

abbrev pub reset_token_invalid : Problem
reset_token_invalid = record {
  http_status = 400;
  code = "reset-token-invalid";
  title = change_failed_title;
  detail = says "El link de recuperación es inválido o expiró. Pedí uno nuevo";
  retry_after = none;
}

abbrev pub password_unchanged : Problem
password_unchanged = record {
  http_status = 400;
  code = "password-unchanged";
  title = change_failed_title;
  detail = says "La contraseña nueva tiene que ser distinta de la actual";
  retry_after = none;
}

abbrev pub too_many_reset_requests : Settings → Problem
too_many_reset_requests s = record {
  http_status = 429;
  code = "too-many-reset-requests";
  title = "Demasiados pedidos";
  detail =
      says_with "Se pidieron demasiados links de recuperación. Esperá "
        s.password_reset_window_minutes " minutos";
  retry_after = some (s.password_reset_window_minutes * 60);
}

unfoldable pub reset_request_key : Text → Text
reset_request_key identifier = codes "reset:requested:" ++ normalise identifier

abbrev pub with_password : User → Text → User
with_password u password_hash = record u { password_hash = password_hash }

module _ ⦃p : Platform⦄ (settings : Settings) where
  unfoldable pub guard_reset_limit : Text → Action None
  guard_reset_limit identifier = do
    requests ←
        RateLimiter.hit (reset_request_key identifier) (settings.password_reset_window_minutes * 60)
    raise_if (ltb settings.password_reset_max_requests requests)
        (problem (too_many_reset_requests settings))

  unfoldable pub send_reset_to : Option User → Action None
  send_reset_to none = pure tt
  send_reset_to (some user) = if not (can_log_in user) then pure tt else do
    at ← utc_now
    raw_token ← generate_emailed_token
    ResetTokens.add user.id (hash_token raw_token)
        (at + settings.password_reset_minutes * 60 * second)
    event ← build_event (password_reset_requested user raw_token) at
    add_event event

  unfoldable pub forgot_password : Text → Action None
  unfolding guard_reset_limit send_reset_to
  forgot_password identifier = do
    guard_reset_limit identifier
    user ← Users.find_by_identifier (normalise identifier)
    send_reset_to user

  -- `reset_password` from the account on.
  unfoldable pub replace_password : User → Text → ℕ → Action User
  replace_password user new_password now = do
    raise_if (verify_password new_password (some user.password_hash)) (problem password_unchanged)
    password_hash ← hash_password new_password
    Users.update (with_password user password_hash)
    ResetTokens.mark_all_used user.id now
    Sessions.revoke_all user.id now (session_seconds settings)
    RefreshTokens.revoke_all user.id now
    pure (with_password user password_hash)

  unfoldable pub reset_found : Option PasswordResetToken → Text → ℕ → Action User
  unfolding replace_password
  reset_found none new_password now = raise (problem reset_token_invalid)
  reset_found (some token) new_password now = do
    raise_if (not (reset_is_usable token now)) (problem reset_token_invalid)
    found ← Users.get token.user_id
    user ← attribute_of found
    replace_password user new_password now

  unfoldable pub reset_password : Text → Text → Action User
  unfolding reset_found hash_token
  reset_password raw_token new_password = do
    at ← utc_now
    token ← ResetTokens.find_by_hash (hash_token raw_token)
    reset_found token new_password at
