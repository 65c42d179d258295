-- ===== src/Api/CurrentUser/Access.antt =====
-- Who gets through `get_current_user`.
use udesa_x_users_api.Common.{
  ◌*◌, ◌≡◌, refl, true, false, not, ◌&&◌, some, find?, Text, text_eq, arith, is_some,
}
use udesa_x_users_api.Config.{Settings}
use udesa_x_users_api.Model.Account.{User, can_log_in}
use udesa_x_users_api.Platform.{
  Platform, Claims, Decoded, valid, expired_signature, invalid_token, second,
}
use udesa_x_users_api.World.State.{World}
use udesa_x_users_api.World.Exec.{ok}
use udesa_x_users_api.Store.Users.{has_id, get}
use udesa_x_users_api.Cache.RateLimiter.{stored}
use udesa_x_users_api.Cache.Sessions.{
  revoked_sessions_key, revoked_token_key, is_token_revoked, revoked_before, instant_of,
}
use udesa_x_users_api.Security.{decode_access_token}
use udesa_x_users_api.Service.Auth.Blocked.{deny_blocked_account}
use udesa_x_users_api.Api.CurrentUser.{
  deny_revoked, account_of, allowed_while_due, get_current_user, issued_before,
}

module _ ⦃p : Platform⦄ (settings : Settings) (token path : Text) (w : World) where
  account_of_sound :
      (c : Claims) (user : User)
      → (account_of c path w).0 ≡ ok user
      → (find? (has_id c.sub) w.db.users ≡ some user)
        × (can_log_in user ≡ true)
        × ((user.must_change_password && not (allowed_while_due path)) ≡ false)
  unfolding account_of get deny_blocked_account
  account_of_sound c user h = (ground arith, ground arith, ground arith)

  deny_revoked_sound :
      (c : Claims) (user : User)
      → (get_current_user settings token path w).0 ≡ ok user
      → p.jwt_decode w.clock settings.jwt_issuer token ≡ valid c
      → (is_some (stored (revoked_token_key c.jti) w) ≡ false)
        × (issued_before (instant_of (stored (revoked_sessions_key c.sub) w)) (c.iat * second)
            ≡ false)
        × ((account_of c path w).0 ≡ ok user)
  unfolding get_current_user decode_access_token deny_revoked is_token_revoked revoked_before
  deny_revoked_sound c user h decoded = (ground arith, ground arith, ground arith)

  not_valid :
      (user : User) (d : Decoded)
      → p.jwt_decode w.clock settings.jwt_issuer token ≡ d
      → (get_current_user settings token path w).0 ≡ ok user
      → (c : Claims) × (d ≡ valid c)
  unfolding get_current_user decode_access_token
  not_valid user (valid c) e h = (c, refl)
  not_valid user expired_signature e h = absurd (ground (arith, e, h))
  not_valid user invalid_token e h = absurd (ground (arith, e, h))

  -- Whoever gets through holds a valid access token that was neither closed on its own nor issued by the
  -- cutoff of its account, and is the stored account that the token names. That account may log in,
  -- and while its password is to be changed it gets through to the two allowed paths only.
  pub get_current_user_sound :
      (user : User)
      → (get_current_user settings token path w).0 ≡ ok user
      → (c : Claims) × (p.jwt_decode w.clock settings.jwt_issuer token ≡ valid c)
        × (is_some (stored (revoked_token_key c.jti) w) ≡ false)
        × (issued_before (instant_of (stored (revoked_sessions_key c.sub) w)) (c.iat * second)
            ≡ false)
        × (find? (has_id c.sub) w.db.users ≡ some user)
        × (can_log_in user ≡ true)
        × ((user.must_change_password && not (allowed_while_due path)) ≡ false)
  get_current_user_sound user h =
      let (c, decoded) = not_valid user (p.jwt_decode w.clock settings.jwt_issuer token) refl h in
      let (unclosed, recent, account) = deny_revoked_sound c user h decoded in
      let (found, allowed, due) = account_of_sound c user account in
      (c, decoded, unclosed, recent, found, allowed, due)
