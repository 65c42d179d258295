-- ===== src/Service/Auth/Login.antt =====
-- `issue_session`, `issue_refresh_token`, `login` and `admin_login` of auth.py.
pub mod Outcomes
pub mod LockingOut
use mathlib.Core.Option
use udesa_x_users_api.Common.{◌/◌, ℕ, ◌+◌, ◌*◌, Bool, not, Option, none, Text, if◌then◌else◌}
use udesa_x_users_api.Text.{normalise}
use udesa_x_users_api.Config.{Settings}
use udesa_x_users_api.Model.Account.{User, is_administrator}
use udesa_x_users_api.Model.Problem.{Problem, problem, says}
use udesa_x_users_api.Platform.{Platform, Claims, second}
use udesa_x_users_api.World.State.{World}
use udesa_x_users_api.World.Exec.{
  Action, None, pure, raise, raise_if, attribute_of, utc_now, draw, ◌>>=◌, ◌>>◌,
}
use udesa_x_users_api.Store.Users
use udesa_x_users_api.Store.RefreshTokens
use udesa_x_users_api.Cache.RateLimiter
use udesa_x_users_api.Security.{
  role_value, visibility_value, verify_password, hash_token, generate_refresh_token,
  issue_access_token,
}
use udesa_x_users_api.Service.Lockout.{
  LoginPolicy, policy_key, app_login_policy, admin_login_policy, guard_lockout, register_failure,
}
use udesa_x_users_api.Service.Auth.Blocked.{
  deny_blocked_account, deny_expired_temporary_password, login_failed_title,
}

pub record IssuedSession : Type 0 where
  pub access_token : Text
  pub refresh_token : Text
  pub expires_in : ℕ

-- What `admin_login` returns: the session with the notice to change the password.
pub record AdminSession : Type 0 where
  pub access_token : Text
  pub expires_in : ℕ
  pub must_change_password : Bool

abbrev pub invalid_credentials : Problem
invalid_credentials = record {
  http_status = 401;
  code = "invalid-credentials";
  title = login_failed_title;
  detail = says "Credenciales inválidas";
  retry_after = none;
}

abbrev pub account_not_verified : Problem
account_not_verified = record {
  http_status = 403;
  code = "account-not-verified";
  title = login_failed_title;
  detail = says "Revisá tu casilla de correo para validar la cuenta antes de ingresar";
  retry_after = none;
}

abbrev pub not_an_administrator : Problem
not_an_administrator = record {
  http_status = 403;
  code = "not-an-administrator";
  title = login_failed_title;
  detail = says "Esta cuenta no tiene acceso al backoffice";
  retry_after = none;
}

-- `user.password_hash if user else None`
abbrev pub hash_of : Option User → Option Text
hash_of = Option.map (λ u. u.password_hash)

-- The claims of the token that `issue_session` hands out.
abbrev pub claims_for : ⦃p : Platform⦄ → Settings → User → World → Claims
claims_for ⦃p⦄ settings user w = record {
  iss = settings.jwt_issuer;
  sub = user.id;
  role = role_value user.role;
  handle = user.handle;
  profile_visibility = visibility_value user.profile_visibility;
  jti = p.uuid4 w.drawn;
  iat = w.clock / second;
  exp = (w.clock + settings.access_token_minutes * 60 * second) / second;
}

module _ ⦃p : Platform⦄ (settings : Settings) where
  unfoldable pub issue_session : User → Action Text
  issue_session user = do
    at ← utc_now
    issue_access_token user.id (role_value user.role) user.handle
        (visibility_value user.profile_visibility) settings.access_token_minutes settings.jwt_issuer
        at

  -- The second value of `issue_session`.
  abbrev pub session_seconds : ℕ
  session_seconds = settings.access_token_minutes * 60

  unfoldable pub issue_refresh_token : User → ℕ → ℕ → Action Text
  issue_refresh_token user family_id now = do
    raw_token ← generate_refresh_token
    RefreshTokens.add user.id family_id (hash_token raw_token)
        (now + settings.refresh_token_days * 86400 * second)
    pure raw_token

  -- `login` once the password is proven.
  unfoldable pub admit : LoginPolicy → Text → User → Action IssuedSession
  admit policy identifier user = do
    deny_blocked_account user login_failed_title
    raise_if (not user.is_email_verified) (problem account_not_verified)
    deny_expired_temporary_password user login_failed_title
    RateLimiter.reset (policy_key policy identifier)
    access_token ← issue_session user
    family ← draw
    at ← utc_now
    refresh_token ← issue_refresh_token user (p.uuid4 family) at
    pure (record {
      access_token = access_token;
      refresh_token = refresh_token;
      expires_in = session_seconds;
    })

  unfoldable pub admin_admit : LoginPolicy → Text → User → Action AdminSession
  admin_admit policy email user = do
    raise_if (not (is_administrator user)) (problem not_an_administrator)
    deny_blocked_account user login_failed_title
    deny_expired_temporary_password user login_failed_title
    RateLimiter.reset (policy_key policy email)
    access_token ← issue_session user
    pure (record {
      access_token = access_token;
      expires_in = session_seconds;
      must_change_password = user.must_change_password;
    })

module _ ⦃p : Platform⦄ where
  -- `if not verify_password(...)`: the failure is counted, and then raised.
  unfoldable pub prove_password : LoginPolicy → Text → Text → Option User → Action None
  prove_password policy identifier password user =
      if verify_password password (hash_of user)
      then pure tt
      else register_failure identifier policy >> raise (problem invalid_credentials)

module _ ⦃p : Platform⦄ (settings : Settings) where
  unfoldable pub login : Text → Text → Action IssuedSession
  unfolding prove_password
  login identifier password = do
    let policy = app_login_policy settings
    guard_lockout identifier policy
    found ← Users.find_by_identifier (normalise identifier)
    prove_password policy identifier password found
    user ← attribute_of found
    admit settings policy identifier user

  unfoldable pub admin_login : Text → Text → Action AdminSession
  unfolding prove_password
  admin_login email password = do
    let policy = admin_login_policy settings
    guard_lockout email policy
    found ← Users.find_by_email (normalise email)
    prove_password policy email password found
    user ← attribute_of found
    admin_admit settings policy email user
