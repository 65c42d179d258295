-- ===== src/Integrity/Sessions.antt =====
-- Logging in, refreshing and logging out keep the accounts and the tokens consistent.
use udesa_x_users_api.Common.{ℕ, ◌*◌, ◌+◌, not, Option, none, some, Text}
use udesa_x_users_api.Text.{normalise}
use udesa_x_users_api.Config.{Settings}
use udesa_x_users_api.Model.Account.{User, is_administrator}
use udesa_x_users_api.Model.Token.{RefreshToken}
use udesa_x_users_api.Model.Problem.{problem, reused}
use udesa_x_users_api.Platform.{Platform, Decoded, valid, expired_signature, invalid_token, second}
use udesa_x_users_api.World.Ensures.{
  Keeps, ◌▹◌, raise-Ensures, raise_if-Keeps, if-Ensures, pure-Keeps, utc_now-Keeps, draw-Keeps,
  or_raise-Ensures, attribute_of-Ensures,
}
use udesa_x_users_api.Security.{hash_token}
use udesa_x_users_api.Service.Lockout.{
  LoginPolicy, policy_key, app_login_policy, admin_login_policy,
}
use udesa_x_users_api.Service.Auth.Blocked.{login_failed_title, refresh_failed_title}
use udesa_x_users_api.Service.Auth.Login.{
  account_not_verified, not_an_administrator, session_seconds, issue_refresh_token, admit,
  admin_admit, login, admin_login,
}
use udesa_x_users_api.Service.Auth.Refresh.{
  invalid_refresh_token, is_reuse, refuse_found, refuse_refresh_token, renew, refresh_consumed,
  refresh,
}
use udesa_x_users_api.Service.Auth.Logout.{
  belongs_to_other, logout_invalid_token, revoke_found, revoke_refresh_family, close_session,
  logout,
}
use udesa_x_users_api.Integrity.{IsConsistent}
use udesa_x_users_api.Integrity.Statements.{
  get-Ensures, find_by_identifier-Ensures, find_by_email-Ensures,
}
use udesa_x_users_api.Integrity.Tables.{
  RefreshTokens_add-Keeps, RefreshTokens_find-Keeps, consume-Keeps, revoke_family-Keeps,
  revoke_all-Keeps,
}
use udesa_x_users_api.Integrity.Redis.{reset-Keeps, revoke_token-Keeps, revoke_sessions-Keeps}
use udesa_x_users_api.Integrity.Guards.{
  refresh_token-Keeps, decode-Keeps, issue_session-Keeps, deny_blocked-Keeps, deny_expired-Keeps,
  guard_lockout-Keeps, prove_password-Keeps,
}

module _ ⦃p : Platform⦄ (settings : Settings) where
  issue_refresh_token-Keeps :
      (user : User) (family_id now : ℕ)
      → Keeps IsConsistent (issue_refresh_token settings user family_id now)
  unfolding issue_refresh_token
  issue_refresh_token-Keeps user family_id now = refresh_token-Keeps ▹ λ raw_token _.
      RefreshTokens_add-Keeps user.id family_id (hash_token raw_token)
        (now + settings.refresh_token_days * 86400 * second)
      ▹ λ _ _. pure-Keeps raw_token

  admit-Keeps :
      (policy : LoginPolicy) (identifier : Text) (user : User)
      → Keeps IsConsistent (admit settings policy identifier user)
  unfolding admit
  admit-Keeps policy identifier user = deny_blocked-Keeps user login_failed_title ▹ λ _ _.
      raise_if-Keeps (not user.is_email_verified) (problem account_not_verified) ▹ λ _ _.
      deny_expired-Keeps user login_failed_title ▹ λ _ _.
      reset-Keeps (policy_key policy identifier) ▹ λ _ _.
      issue_session-Keeps settings user ▹ λ access_token _. draw-Keeps ▹ λ family _.
      utc_now-Keeps ▹ λ at _.
      issue_refresh_token-Keeps user (p.uuid4 family) at ▹ λ refresh_token _. pure-Keeps (record {
        access_token = access_token;
        refresh_token = refresh_token;
        expires_in = session_seconds settings;
      })

  admin_admit-Keeps :
      (policy : LoginPolicy) (email : Text) (user : User)
      → Keeps IsConsistent (admin_admit settings policy email user)
  unfolding admin_admit
  admin_admit-Keeps policy email user =
      raise_if-Keeps (not (is_administrator user)) (problem not_an_administrator) ▹ λ _ _.
      deny_blocked-Keeps user login_failed_title ▹ λ _ _.
      deny_expired-Keeps user login_failed_title ▹ λ _ _.
      reset-Keeps (policy_key policy email) ▹ λ _ _.
      issue_session-Keeps settings user ▹ λ access_token _. pure-Keeps (record {
        access_token = access_token;
        expires_in = session_seconds settings;
        must_change_password = user.must_change_password;
      })

  pub login-Keeps :
      (identifier password : Text) → Keeps IsConsistent (login settings identifier password)
  unfolding login
  login-Keeps identifier password =
      let policy = app_login_policy settings in
      guard_lockout-Keeps identifier policy ▹ λ _ _.
      find_by_identifier-Ensures (normalise identifier) ▹ λ found sound.
      prove_password-Keeps policy identifier password found ▹ λ _ _.
      attribute_of-Ensures found sound ▹ λ user _. admit-Keeps policy identifier user

  pub admin_login-Keeps :
      (email password : Text) → Keeps IsConsistent (admin_login settings email password)
  unfolding admin_login
  admin_login-Keeps email password =
      let policy = admin_login_policy settings in
      guard_lockout-Keeps email policy ▹ λ _ _.
      find_by_email-Ensures (normalise email) ▹ λ found sound.
      prove_password-Keeps policy email password found ▹ λ _ _.
      attribute_of-Ensures found sound ▹ λ user _. admin_admit-Keeps policy email user

  refuse_found-Keeps :
      (found : Option RefreshToken) (now : ℕ) → Keeps IsConsistent (refuse_found settings found now)
  unfolding refuse_found
  refuse_found-Keeps none now = raise-Ensures (problem invalid_refresh_token)
  refuse_found-Keeps (some token) now =
      if-Ensures (is_reuse token)
        (λ _. revoke_all-Keeps token.user_id now ▹ λ _ _.
          revoke_sessions-Keeps token.user_id now (session_seconds settings) ▹ λ _ _.
          raise-Ensures (reused invalid_refresh_token))
        (λ _. raise-Ensures (problem invalid_refresh_token))

  renew-Keeps :
      (consumed : RefreshToken) (now : ℕ) → Keeps IsConsistent (renew settings consumed now)
  unfolding renew
  renew-Keeps consumed now = get-Ensures consumed.user_id ▹ λ found sound.
      or_raise-Ensures found (problem invalid_refresh_token) sound ▹ λ user _.
      deny_blocked-Keeps user refresh_failed_title ▹ λ _ _.
      deny_expired-Keeps user refresh_failed_title ▹ λ _ _.
      issue_session-Keeps settings user ▹ λ access_token _.
      issue_refresh_token-Keeps user consumed.family_id now ▹ λ refresh_token _.
      pure-Keeps (record {
        access_token = access_token;
        refresh_token = refresh_token;
        expires_in = session_seconds settings;
      })

  refresh_consumed-Keeps :
      (consumed : Option RefreshToken) (token_hash : Text) (now : ℕ)
      → Keeps IsConsistent (refresh_consumed settings consumed token_hash now)
  unfolding refresh_consumed refuse_refresh_token
  refresh_consumed-Keeps none token_hash now =
      RefreshTokens_find-Keeps token_hash ▹ λ found _. refuse_found-Keeps found now
  refresh_consumed-Keeps (some consumed) token_hash now = renew-Keeps consumed now

  pub refresh-Keeps : (raw_token : Text) → Keeps IsConsistent (refresh settings raw_token)
  unfolding refresh
  refresh-Keeps raw_token = utc_now-Keeps ▹ λ at _.
      consume-Keeps (hash_token raw_token) at ▹ λ consumed _.
      refresh_consumed-Keeps consumed (hash_token raw_token) at

module _ ⦃p : Platform⦄ where
  revoke_found-Keeps :
      (found : Option RefreshToken) (owner : Option ℕ)
      → Keeps IsConsistent (revoke_found found owner)
  unfolding revoke_found
  revoke_found-Keeps none owner = pure-Keeps tt
  revoke_found-Keeps (some token) owner =
      if-Ensures (belongs_to_other owner token) (λ _. pure-Keeps tt)
        (λ _. utc_now-Keeps ▹ λ at _. revoke_family-Keeps token.family_id at)

  revoke_refresh_family-Keeps :
      (refresh_token : Option Text) (owner : Option ℕ)
      → Keeps IsConsistent (revoke_refresh_family refresh_token owner)
  unfolding revoke_refresh_family
  revoke_refresh_family-Keeps none owner = pure-Keeps tt
  revoke_refresh_family-Keeps (some raw_token) owner =
      RefreshTokens_find-Keeps (hash_token raw_token) ▹ λ found _. revoke_found-Keeps found owner

  close_session-Keeps :
      (claims : Decoded) (refresh_token : Option Text)
      → Keeps IsConsistent (close_session claims refresh_token)
  unfolding close_session
  close_session-Keeps expired_signature refresh_token =
      revoke_refresh_family-Keeps refresh_token none
  close_session-Keeps invalid_token refresh_token = raise-Ensures (problem logout_invalid_token)
  close_session-Keeps (valid claims) refresh_token = utc_now-Keeps ▹ λ at _.
      revoke_token-Keeps claims.jti (claims.exp * second) at ▹ λ _ _.
      revoke_refresh_family-Keeps refresh_token (some claims.sub)

  pub logout-Keeps :
      (settings : Settings) (token : Text) (refresh_token : Option Text)
      → Keeps IsConsistent (logout settings token refresh_token)
  unfolding logout
  logout-Keeps settings token refresh_token =
      decode-Keeps token settings.jwt_issuer ▹ λ claims _. close_session-Keeps claims refresh_token
