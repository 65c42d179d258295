-- ===== src/Service/Lockout.antt =====
-- `LoginPolicy` and its guard, of src/users_api/app/services/auth.py.
use udesa_x_users_api.Common.{ℕ, ◌*◌, ◌++◌, some, Text, codes, leb}
use udesa_x_users_api.Text.{normalise}
use udesa_x_users_api.Config.{Settings}
use udesa_x_users_api.Model.Problem.{Problem, problem, says_with}
use udesa_x_users_api.Platform.{Platform}
use udesa_x_users_api.World.Exec.{Action, None, pure, raise_if, ◌>>=◌, ◌>>◌}
use udesa_x_users_api.Cache.RateLimiter

pub record LoginPolicy : Type 0 where
  pub key_prefix : Text
  pub max_attempts : ℕ
  pub lockout_minutes : ℕ

-- `LoginPolicy.key`
unfoldable pub policy_key : LoginPolicy → Text → Text
policy_key policy identifier = policy.key_prefix ++ codes ":failed:" ++ normalise identifier

unfoldable pub window_seconds : LoginPolicy → ℕ
window_seconds policy = policy.lockout_minutes * 60

abbrev pub too_many_attempts : LoginPolicy → Problem
too_many_attempts policy = record {
  http_status = 429;
  code = "too-many-attempts";
  title = "Demasiados intentos";
  detail =
      says_with "La cuenta quedó bloqueada temporalmente por " policy.lockout_minutes " minutos";
  retry_after = some (window_seconds policy);
}

unfoldable pub app_login_policy : Settings → LoginPolicy
app_login_policy s = record {
  key_prefix = codes "login";
  max_attempts = s.login_max_attempts;
  lockout_minutes = s.login_lockout_minutes;
}

unfoldable pub admin_login_policy : Settings → LoginPolicy
admin_login_policy s = record {
  key_prefix = codes "admin-login";
  max_attempts = s.admin_login_max_attempts;
  lockout_minutes = s.admin_login_lockout_minutes;
}

module _ ⦃p : Platform⦄ where
  unfoldable pub guard_lockout : Text → LoginPolicy → Action None
  guard_lockout identifier policy = do
    failures ← RateLimiter.count (policy_key policy identifier)
    raise_if (leb policy.max_attempts failures) (problem (too_many_attempts policy))

  unfoldable pub register_failure : Text → LoginPolicy → Action None
  register_failure identifier policy = do
    RateLimiter.hit (policy_key policy identifier) (window_seconds policy)
    pure tt
