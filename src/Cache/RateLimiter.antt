-- ===== src/Cache/RateLimiter.antt =====
-- src/users_api/infrastructure/redis/rate_limiter.py
pub mod Window
pub mod Spending
pub mod Interrupted
use udesa_x_users_api.Common.{ℕ, ◌+◌, ◌*◌, Option, none, some, Text, ◌==◌, nat_eq, if◌then◌else◌}
use udesa_x_users_api.Platform.{Platform, Entry, live, second}
use udesa_x_users_api.World.State.{World}
use udesa_x_users_api.World.Exec.{Action, None, pure, gets, on_redis, utc_now, ◌>>=◌, ◌>>◌}

-- The number that a reply holds; the code reads a missing key as zero.
abbrev pub marks_of : Option Entry → ℕ
marks_of none = 0
marks_of (some e) = e.value

module _ ⦃p : Platform⦄ where
  -- GET, which does not see a key past its deadline.
  abbrev pub stored : Text → World → Option Entry
  stored key w = live w.clock (p.entry w.redis key)

  unfoldable pub incr : Text → Action ℕ
  incr key = do on_redis (p.incr (← utc_now) key); gets (λ w. marks_of (stored key w))

  expire : Text → ℕ → Action None
  expire key seconds = do at ← utc_now; on_redis (p.expire at key (at + seconds * second))

  -- The expiry is set on the first mark only.
  unfoldable pub hit : Text → ℕ → Action ℕ
  unfolding incr expire
  hit key window_seconds = do
    marks ← incr key
    if marks == 1 then expire key window_seconds else pure tt
    pure marks

  unfoldable pub count : Text → Action ℕ
  count key = gets (λ w. marks_of (stored key w))

  unfoldable pub reset : Text → Action None
  reset key = on_redis (p.delete key)
