-- ===== src/Tests/CacheRuns.antt =====
-- The counters and the revoked tokens.
use udesa_x_users_api.Common.{◌≡◌, refl, [], ◌∷◌, arith}
use udesa_x_users_api.World.Exec.{ok}
use udesa_x_users_api.Cache.RateLimiter.{count, incr}
use udesa_x_users_api.Cache.RateLimiter.Window.{at_time, mark_all, count-mark_all}
use udesa_x_users_api.Cache.RateLimiter.Interrupted.{count-interrupted}
use udesa_x_users_api.Tests.Demo.{demo, empty_world}

count-mark_all_example :
    (count (1 ∷ []) (at_time 1500 (mark_all (1 ∷ []) 900 (1000 ∷ 1200 ∷ 1400 ∷ []) empty_world))).0
    ≡ ok 3
count-mark_all_example =
    count-mark_all (1 ∷ []) 900 1000 (1200 ∷ 1400 ∷ []) empty_world 1500 refl (omega arith)

-- A thousand million seconds later the counter still holds the three marks.
count-interrupted_example :
    (count (1 ∷ []) (
      at_time 1000000000000000
        (mark_all (1 ∷ []) 900 (1200 ∷ 1400 ∷ []) (incr (1 ∷ []) (at_time 1000 empty_world)).1))).0
    ≡ ok 3
count-interrupted_example =
    count-interrupted (1 ∷ []) 900 1000 (1200 ∷ 1400 ∷ []) empty_world 1000000000000000 refl
