-- ===== src/Service/Auth/Logout.antt =====
-- `logout` and `revoke_refresh_family` of auth.py.
pub mod Closing
use udesa_x_users_api.Common.{
  ℕ, ◌*◌, Bool, false, not, Option, none, some, Text, ◌==◌, nat_eq, if◌then◌else◌,
}
use udesa_x_users_api.Config.{Settings}
use udesa_x_users_api.Model.Token.{RefreshToken}
use udesa_x_users_api.Model.Problem.{Problem, problem, says}
use udesa_x_users_api.Platform.{Platform, Decoded, valid, expired_signature, invalid_token, second}
use udesa_x_users_api.World.Exec.{Action, None, pure, raise, utc_now, ◌>>=◌, ◌>>◌}
use udesa_x_users_api.Store.RefreshTokens
use udesa_x_users_api.Cache.Sessions
use udesa_x_users_api.Security.{hash_token, decode_access_token}

abbrev pub logout_invalid_token : Problem
logout_invalid_token = record {
  http_status = 401;
  code = "invalid-token";
  title = "No se pudo cerrar la sesión";
  detail = says "El token no es válido";
  retry_after = none;
}

-- `owner is not None and token.user_id != owner`
abbrev pub belongs_to_other : Option ℕ → RefreshToken → Bool
belongs_to_other none token = false
belongs_to_other (some owner) token = not (token.user_id == owner)

module _ ⦃p : Platform⦄ where
  unfoldable pub revoke_found : Option RefreshToken → Option ℕ → Action None
  revoke_found none owner = pure tt
  revoke_found (some token) owner =
      if belongs_to_other owner token
      then pure tt
      else do at ← utc_now; RefreshTokens.revoke_family token.family_id at

  unfoldable pub revoke_refresh_family : Option Text → Option ℕ → Action None
  unfolding revoke_found
  revoke_refresh_family none owner = pure tt
  revoke_refresh_family (some raw_token) owner = do
    token ← RefreshTokens.find_by_hash (hash_token raw_token)
    revoke_found token owner

  unfoldable pub close_session : Decoded → Option Text → Action None
  close_session expired_signature refresh_token = revoke_refresh_family refresh_token none
  close_session invalid_token refresh_token = raise (problem logout_invalid_token)
  close_session (valid claims) refresh_token = do
    at ← utc_now
    Sessions.revoke_token claims.jti (claims.exp * second) at
    revoke_refresh_family refresh_token (some claims.sub)

  unfoldable pub logout : Settings → Text → Option Text → Action None
  unfolding close_session decode_access_token
  logout settings token refresh_token = do
    claims ← decode_access_token token settings.jwt_issuer
    close_session claims refresh_token
