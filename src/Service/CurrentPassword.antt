-- ===== src/Service/CurrentPassword.antt =====
-- src/users_api/app/services/current_password.py: the check that the operations on one's own account
-- share, with one budget of attempts.
use udesa_x_users_api.Common.{some, none, String, Text, codes, leb, if◌then◌else◌}
use udesa_x_users_api.Text.Uuid.{str_uuid}
use udesa_x_users_api.Config.{Settings}
use udesa_x_users_api.Model.Account.{User}
use udesa_x_users_api.Model.Problem.{Problem, problem, says, says_with}
use udesa_x_users_api.Platform.{Platform}
use udesa_x_users_api.World.Exec.{Action, None, pure, raise, raise_if, ◌>>=◌, ◌>>◌}
use udesa_x_users_api.Cache.RateLimiter
use udesa_x_users_api.Security.{verify_password}
use udesa_x_users_api.Service.Lockout.{LoginPolicy, policy_key, window_seconds}

abbrev pub current_password_invalid : String → Problem
current_password_invalid title = record {
  http_status = 400;
  code = "invalid-current-password";
  title = title;
  detail = says "La contraseña actual no es correcta";
  retry_after = none;
}

abbrev pub too_many_password_attempts : LoginPolicy → Problem
too_many_password_attempts policy = record {
  http_status = 429;
  code = "too-many-password-attempts";
  title = "Demasiados intentos";
  detail =
      says_with "Erraste la contraseña actual demasiadas veces. Volvé a intentarlo en "
        policy.lockout_minutes " minutos";
  retry_after = some (window_seconds policy);
}

unfoldable pub policy : Settings → LoginPolicy
policy s = record {
  key_prefix = codes "change-password";
  max_attempts = s.change_password_max_attempts;
  lockout_minutes = s.change_password_lockout_minutes;
}

-- The key of an account's failed attempts.
unfoldable pub attempts_key : Settings → User → Text
attempts_key settings user = policy_key (policy settings) (str_uuid user.id)

module _ ⦃p : Platform⦄ (settings : Settings) where
  unfoldable pub guard_attempts : User → Action None
  guard_attempts user = do
    failures ← RateLimiter.count (attempts_key settings user)
    raise_if (leb (policy settings).max_attempts failures)
        (problem (too_many_password_attempts (policy settings)))

  unfoldable pub verify : User → Text → String → Action None
  unfolding guard_attempts
  verify user current_password title = do
    guard_attempts user
    if verify_password current_password (some user.password_hash) then pure tt else do
      RateLimiter.hit (attempts_key settings user) (window_seconds (policy settings))
      raise (problem (current_password_invalid title))

  unfoldable pub forget_attempts : User → Action None
  forget_attempts user = RateLimiter.reset (attempts_key settings user)
