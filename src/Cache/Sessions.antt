-- ===== src/Cache/Sessions.antt =====
-- src/users_api/infrastructure/redis/session_store.py
pub mod Laws
use udesa_x_users_api.Common.{
  ℕ, ◌+◌, ◌-◌, ◌*◌, ◌/◌, Bool, Option, none, some, ◌++◌, Text, codes, ◌==◌, nat_eq, is_some,
  if◌then◌else◌,
}
use udesa_x_users_api.Text.Uuid.{str_uuid}
use udesa_x_users_api.Model.Problem.{response_error}
use udesa_x_users_api.Platform.{Platform, Entry, second}
use udesa_x_users_api.World.Exec.{Action, None, raise, gets, on_redis, utc_now, ◌>>=◌}
use udesa_x_users_api.Cache.RateLimiter.{stored}

unfoldable pub revoked_token_key : ℕ → Text
revoked_token_key jti = codes "revoked:jti:" ++ str_uuid jti

unfoldable pub revoked_sessions_key : ℕ → Text
revoked_sessions_key user_id = codes "revoked:user:" ++ str_uuid user_id

abbrev pub instant_of : Option Entry → Option ℕ
instant_of none = none
instant_of (some e) = some (e.value * second)

module _ ⦃p : Platform⦄ where
  -- SET with EX: Redis refuses a time to live of zero or less.
  set_ex : Text → ℕ → ℕ → Action None
  set_ex key value seconds =
      if seconds == 0
      then raise response_error
      else (do at ← utc_now; on_redis (p.set_ex at key value (at + seconds * second)))

  -- `int((expires_at - now).total_seconds())` is negative only where the subtraction gives 0.
  unfoldable pub revoke_token : ℕ → ℕ → ℕ → Action None
  unfolding set_ex
  revoke_token jti expires_at now = set_ex (revoked_token_key jti) 1 ((expires_at - now) / second)

  unfoldable pub revoke_all : ℕ → ℕ → ℕ → Action None
  unfolding set_ex
  revoke_all user_id now ttl_seconds =
      set_ex (revoked_sessions_key user_id) (now / second) ttl_seconds

  unfoldable pub is_token_revoked : ℕ → Action Bool
  is_token_revoked jti = gets (λ w. is_some (stored (revoked_token_key jti) w))

  unfoldable pub revoked_before : ℕ → Action (Option ℕ)
  revoked_before user_id = gets (λ w. instant_of (stored (revoked_sessions_key user_id) w))
