-- ===== src/Service/Auth/Refresh.antt =====
-- `refresh` and `refuse_refresh_token` of auth.py.
pub mod Rotation
use udesa_x_users_api.Common.{ℕ, ◌&&◌, not, Bool, Option, none, some, Text, is_some, if◌then◌else◌}
use udesa_x_users_api.Config.{Settings}
use udesa_x_users_api.Model.Token.{RefreshToken}
use udesa_x_users_api.Model.Problem.{Problem, problem, reused, says}
use udesa_x_users_api.Platform.{Platform}
use udesa_x_users_api.World.Exec.{Action, pure, raise, or_raise, utc_now, ◌>>=◌, ◌>>◌}
use udesa_x_users_api.Store.Users
use udesa_x_users_api.Store.RefreshTokens
use udesa_x_users_api.Cache.Sessions
use udesa_x_users_api.Security.{hash_token}
use udesa_x_users_api.Service.Auth.Blocked.{
  deny_blocked_account, deny_expired_temporary_password, refresh_failed_title,
}
use udesa_x_users_api.Service.Auth.Login.{
  IssuedSession, issue_session, session_seconds, issue_refresh_token,
}

abbrev pub invalid_refresh_token : Problem
invalid_refresh_token = record {
  http_status = 401;
  code = "invalid-refresh-token";
  title = refresh_failed_title;
  detail = says "Tu sesión venció. Iniciá sesión de nuevo";
  retry_after = none;
}

-- A token that was used and whose family was not revoked.
abbrev pub is_reuse : RefreshToken → Bool
is_reuse token = is_some token.used_at && not (is_some token.revoked_at)

module _ ⦃p : Platform⦄ (settings : Settings) where
  unfoldable pub refuse_found : Option RefreshToken → ℕ → Action IssuedSession
  refuse_found none now = raise (problem invalid_refresh_token)
  refuse_found (some token) now =
      if is_reuse token
      then (do
        RefreshTokens.revoke_all token.user_id now
        Sessions.revoke_all token.user_id now (session_seconds settings)
        raise (reused invalid_refresh_token))
      else raise (problem invalid_refresh_token)

  unfoldable pub refuse_refresh_token : Text → ℕ → Action IssuedSession
  unfolding refuse_found
  refuse_refresh_token token_hash now = do
    token ← RefreshTokens.find_by_hash token_hash
    refuse_found token now

  -- `refresh` from the account on.
  unfoldable pub renew : RefreshToken → ℕ → Action IssuedSession
  renew consumed now = do
    found ← Users.get consumed.user_id
    user ← or_raise found (problem invalid_refresh_token)
    deny_blocked_account user refresh_failed_title
    deny_expired_temporary_password user refresh_failed_title
    access_token ← issue_session settings user
    refresh_token ← issue_refresh_token settings user consumed.family_id now
    pure (record {
      access_token = access_token;
      refresh_token = refresh_token;
      expires_in = session_seconds settings;
    })

  unfoldable pub refresh_consumed : Option RefreshToken → Text → ℕ → Action IssuedSession
  refresh_consumed none token_hash now = refuse_refresh_token token_hash now
  refresh_consumed (some consumed) token_hash now = renew consumed now

  unfoldable pub refresh : Text → Action IssuedSession
  unfolding refresh_consumed
  refresh raw_token = do
    at ← utc_now
    let token_hash = hash_token raw_token
    consumed ← RefreshTokens.consume token_hash at
    refresh_consumed consumed token_hash at
