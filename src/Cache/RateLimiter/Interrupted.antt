-- ===== src/Cache/RateLimiter/Interrupted.antt =====
-- A mark whose request ends between its two commands, INCR and EXPIRE.
use udesa_x_users_api.Common.{
  ℕ, suc, ◌+◌, ◌≡◌, List, [], ◌∷◌, length, none, some, Text, text_eq, ==_refl, arith,
}
use udesa_x_users_api.Platform.{Platform}
use udesa_x_users_api.World.State.{World}
use udesa_x_users_api.World.Exec.{ok}
use udesa_x_users_api.Cache.RateLimiter.{stored, incr, hit, count}
use udesa_x_users_api.Cache.RateLimiter.Window.{at_time, mark_all, entry-hit}

module _ ⦃p : Platform⦄ (key : Text) (seconds : ℕ) where
  entry-mark_forever :
      (n : ℕ) (ts : List ℕ) (w : World)
      → p.entry w.redis key ≡ some (record { value = suc n; deadline = none })
      → p.entry (mark_all key seconds ts w).redis key
        ≡ some (record { value = suc n + length ts; deadline = none })
  entry-mark_forever n [] w e = ground arith
  entry-mark_forever n (t ∷ ts) w e = ground (
    arith,
    entry-hit key seconds (at_time t w) key,
    ==_refl key,
    entry-mark_forever (suc n) ts (hit key seconds (at_time t w)).1,
  )

  -- When the request of the first mark ends after INCR and before EXPIRE, the counter never expires:
  -- whatever marks follow, at whatever times, it holds all of them at every later time.
  pub count-interrupted :
      (t₀ : ℕ) (ts : List ℕ) (w : World) (t : ℕ)
      → stored key (at_time t₀ w) ≡ none
      → (count key (at_time t (mark_all key seconds ts (incr key (at_time t₀ w)).1))).0
        ≡ ok (suc (length ts))
  unfolding count incr
  count-interrupted t₀ ts w t fresh = ground (
    arith,
    p.entry-incr t₀ key key w.redis,
    ==_refl key,
    entry-mark_forever 0 ts (incr key (at_time t₀ w)).1,
  )
