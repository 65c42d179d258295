-- ===== src/Api/CurrentUser.antt =====
-- `get_current_user` and the guards of src/users_api/api/deps.py.
pub mod Revocation
pub mod Access
use udesa_x_users_api.Common.{
  ℕ, ◌*◌, Bool, false, not, ◌&&◌, ◌||◌, Option, none, some, Text, codes, ◌==◌, text_eq, leb,
}
use udesa_x_users_api.Config.{Settings}
use udesa_x_users_api.Model.Account.{Role, User, role_eq, is_administrator}
use udesa_x_users_api.Model.Problem.{Problem, problem, says}
use udesa_x_users_api.Platform.{
  Platform, Claims, Decoded, valid, expired_signature, invalid_token, second,
}
use udesa_x_users_api.World.Exec.{Action, None, pure, raise, raise_if, or_raise, ◌>>=◌, ◌>>◌}
use udesa_x_users_api.Store.Users
use udesa_x_users_api.Cache.Sessions
use udesa_x_users_api.Security.{decode_access_token}
use udesa_x_users_api.Service.Auth.Blocked.{account_suspended, deny_blocked_account}
use udesa_x_users_api.Common.{String}

abbrev pub unauthenticated_title : String
unauthenticated_title = "No se pudo autenticar la solicitud"

abbrev pub invalid_access_token : Problem
invalid_access_token = record {
  http_status = 401;
  code = "invalid-token";
  title = unauthenticated_title;
  detail = says "El token no es válido";
  retry_after = none;
}

abbrev pub session_revoked : Problem
session_revoked = record {
  http_status = 401;
  code = "session-revoked";
  title = "La sesión ya no es válida";
  detail = says "Tu sesión se cerró. Iniciá sesión de nuevo";
  retry_after = none;
}

abbrev pub password_change_required : Problem
password_change_required = record {
  http_status = 403;
  code = "password-change-required";
  title = "Tenés que cambiar tu contraseña";
  detail = says "La contraseña temporal solo sirve para elegir una nueva";
  retry_after = none;
}

abbrev pub superadmin_required : Problem
superadmin_required = record {
  http_status = 403;
  code = "superadmin-required";
  title = "No se pudo completar la acción";
  detail = says "Solo un superadministrador puede gestionar administradores";
  retry_after = none;
}

abbrev pub administrator_required : Problem
administrator_required = record {
  http_status = 403;
  code = "administrator-required";
  title = "No se pudo completar la acción";
  detail = says "Solo un administrador puede ver esta información";
  retry_after = none;
}

abbrev pub invalid_internal_token : Problem
invalid_internal_token = record {
  http_status = 401;
  code = "invalid-internal-token";
  title = unauthenticated_title;
  detail = says "Falta el token interno o no es válido";
  retry_after = none;
}

-- `PATHS_ALLOWED_WHILE_PASSWORD_CHANGE_IS_DUE`
unfoldable pub allowed_while_due : Text → Bool
allowed_while_due path = path == codes "/api/me/change-password" || path == codes "/api/auth/logout"

-- `cutoff is not None and issued_at <= cutoff`
abbrev pub issued_before : Option ℕ → ℕ → Bool
issued_before none issued_at = false
issued_before (some cutoff) issued_at = leb issued_at cutoff

module _ ⦃p : Platform⦄ where
  abbrev pub claims_of : Decoded → Action Claims
  claims_of (valid claims) = pure claims
  claims_of expired_signature = raise (problem invalid_access_token)
  claims_of invalid_token = raise (problem invalid_access_token)

  -- Whether the token was closed on its own or with its whole account.
  unfoldable pub deny_revoked : Claims → Action None
  deny_revoked claims = do
    cutoff ← Sessions.revoked_before claims.sub
    revoked ← Sessions.is_token_revoked claims.jti
    raise_if (revoked || issued_before cutoff (claims.iat * second)) (problem session_revoked)

  -- `get_current_user` from the account on.
  unfoldable pub account_of : Claims → Text → Action User
  account_of claims path = do
    found ← Users.get claims.sub
    user ← or_raise found (problem (account_suspended unauthenticated_title))
    deny_blocked_account user unauthenticated_title
    raise_if (user.must_change_password && not (allowed_while_due path))
        (problem password_change_required)
    pure user

  unfoldable pub get_current_user : Settings → Text → Text → Action User
  unfolding deny_revoked account_of decode_access_token
  get_current_user settings token path = do
    decoded ← decode_access_token token settings.jwt_issuer
    claims ← claims_of decoded
    deny_revoked claims
    account_of claims path

  unfoldable pub require_superadmin : User → Action User
  require_superadmin user = do
    raise_if (not (user.role == Role.superadmin)) (problem superadmin_required)
    pure user

  unfoldable pub require_administrator : User → Action User
  require_administrator user = do
    raise_if (not (is_administrator user)) (problem administrator_required)
    pure user

  unfoldable pub require_internal_token : Settings → Option Text → Action None
  require_internal_token settings none = raise (problem invalid_internal_token)
  require_internal_token settings (some token) =
      raise_if (not (token == settings.internal_api_token)) (problem invalid_internal_token)
