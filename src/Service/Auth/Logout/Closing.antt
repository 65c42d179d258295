-- ===== src/Service/Auth/Logout/Closing.antt =====
-- What logging out does to the token that it is given.
use udesa_x_users_api.Common.{
  ℕ, ◌+◌, ◌-◌, ◌*◌, ◌/◌, ◌≤◌, ◌<◌, ◌≡◌, Option, some, Text, arith, ==_refl, text_eq, nat_eq, ltb,
}
use udesa_x_users_api.Config.{Settings}
use udesa_x_users_api.Model.Problem.{response_error}
use udesa_x_users_api.Platform.{Platform, Claims, valid, second}
use udesa_x_users_api.World.State.{World}
use udesa_x_users_api.World.Exec.{ok, err}
use udesa_x_users_api.Store.RefreshTokens.{find_by_hash, revoke_family}
use udesa_x_users_api.Cache.RateLimiter.Window.{at_time}
use udesa_x_users_api.Cache.Sessions.{revoked_token_key, revoke_token, is_token_revoked}
use udesa_x_users_api.Cache.Sessions.Laws.{entry-revoke_token, result-revoke_token}
use udesa_x_users_api.Security.{decode_access_token}
use udesa_x_users_api.Service.Auth.Logout.{
  revoke_found, revoke_refresh_family, close_session, logout,
}

module _ ⦃p : Platform⦄ (refresh_token : Option Text) (owner : Option ℕ) (w : World) where
  pub redis-revoke_refresh_family : (revoke_refresh_family refresh_token owner w).1.redis ≡ w.redis
  unfolding revoke_refresh_family revoke_found find_by_hash revoke_family
  redis-revoke_refresh_family = ground arith

module _ ⦃p : Platform⦄ (settings : Settings) (token : Text) (refresh_token : Option Text)
    (w : World) (c : Claims) where
  -- In the last second of its life a token cannot be closed: Redis refuses an expiry of zero seconds,
  -- the exception is one that nobody catches, and neither the token nor the family of the refresh token
  -- is revoked.
  pub logout-last_second :
      p.jwt_decode w.clock settings.jwt_issuer token ≡ valid c
      → c.exp * second < w.clock + second
      → logout settings token refresh_token w ≡ (err response_error, w)
  unfolding logout close_session decode_access_token revoke_token
  logout-last_second decoded last = ground (arith, decoded)

  -- The seconds of its life that are left, rounded down.
  abbrev pub remaining : ℕ
  remaining = (c.exp * second - w.clock) / second

  entry-logout :
      p.jwt_decode w.clock settings.jwt_issuer token ≡ valid c
      → w.clock + second ≤ c.exp * second
      → p.entry (logout settings token refresh_token w).1.redis (revoked_token_key c.jti)
        ≡ some (record { value = 1; deadline = some (w.clock + remaining * second) })
  unfolding logout close_session decode_access_token
  entry-logout decoded early = ground (
    arith,
    decoded,
    entry-revoke_token c.jti (c.exp * second) w.clock w (revoked_token_key c.jti) early,
    result-revoke_token c.jti (c.exp * second) w.clock w,
    ==_refl (revoked_token_key c.jti),
    redis-revoke_refresh_family refresh_token (some c.sub)
        (revoke_token c.jti (c.exp * second) w.clock w).1,
  )

  -- A token with a second or more to live is closed from then on, for its remaining whole seconds, and
  -- no longer: in the fraction of a second before it expires it counts as open again.
  pub logout-closes :
      (t : ℕ)
      → p.jwt_decode w.clock settings.jwt_issuer token ≡ valid c
      → w.clock + second ≤ c.exp * second
      → (is_token_revoked c.jti (at_time t (logout settings token refresh_token w).1)).0
        ≡ ok (ltb t (w.clock + remaining * second))
  unfolding is_token_revoked
  logout-closes t decoded early = ground (arith, entry-logout decoded early)
