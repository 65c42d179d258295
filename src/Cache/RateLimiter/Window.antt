-- ===== src/Cache/RateLimiter/Window.antt =====
-- What a mark does to its counter: the window opens on the first mark and later marks do not move it.
use udesa_x_users_api.Common.{
  All, List, [], ◌∷◌, ◌<◌, length, lt→ltb, ltb, ℕ, suc, ◌+◌, ◌*◌, ◌≡◌, Option, none, some, Text,
  ◌==◌, nat_eq, text_eq, ==_refl, arith, if◌then◌else◌, beq_text_iff,
}
use udesa_x_users_api.Platform.{Platform, Entry, second}
use udesa_x_users_api.World.State.{World}
use udesa_x_users_api.World.Exec.{ok}
use udesa_x_users_api.Cache.RateLimiter.{stored, hit, count}

-- The counter after a mark at `at`, from what was stored of it.
abbrev pub marked : ℕ → ℕ → Option Entry → Entry
marked at seconds none = record { value = 1; deadline = some (at + seconds * second) }
marked at seconds (some e) = record {
  value = suc e.value;
  deadline = if e.value == 0 then some (at + seconds * second) else e.deadline;
}

module _ ⦃p : Platform⦄ (key : Text) (seconds : ℕ) (w : World) where
  pub entry-hit :
      (j : Text)
      → p.entry (hit key seconds w).1.redis j
        ≡ (if key == j then some (marked w.clock seconds (stored key w)) else p.entry w.redis j)
  unfolding hit
  entry-hit j = ground (
    arith,
    p.entry-incr w.clock key key w.redis,
    p.entry-incr w.clock key j w.redis,
    p.entry-expire w.clock key (w.clock + seconds * second) j (p.incr w.clock key w.redis),
    beq_text_iff key j,
    ==_refl key,
  )

  pub result-hit : (hit key seconds w).0 ≡ ok (marked w.clock seconds (stored key w)).value
  unfolding hit
  result-hit = ground (arith, p.entry-incr w.clock key key w.redis, ==_refl key)

  pub db-hit : (hit key seconds w).1.db ≡ w.db
  unfolding hit
  db-hit = ground arith

  pub clock-hit : (hit key seconds w).1.clock ≡ w.clock
  unfolding hit
  clock-hit = ground arith

  pub drawn-hit : (hit key seconds w).1.drawn ≡ w.drawn
  unfolding hit
  drawn-hit = ground arith

module _ ⦃p : Platform⦄ where
  -- The world at another instant.
  abbrev pub at_time : ℕ → World → World
  at_time t w = record w { clock = t }

  -- Marks of one key at the given instants.
  abbrev pub mark_all : Text → ℕ → List ℕ → World → World
  mark_all key seconds [] w = w
  mark_all key seconds (t ∷ ts) w = mark_all key seconds ts (hit key seconds (at_time t w)).1

module _ ⦃p : Platform⦄ (key : Text) (seconds : ℕ) where
  entry-mark_all :
      (n limit : ℕ) (ts : List ℕ) (w : World)
      → p.entry w.redis key ≡ some (record { value = suc n; deadline = some limit })
      → All (λ t. t < limit) ts
      → p.entry (mark_all key seconds ts w).redis key
        ≡ some (record { value = suc n + length ts; deadline = some limit })
  entry-mark_all n limit [] w e h = ground arith
  entry-mark_all n limit (t ∷ ts) w e h = ground (
    arith,
    entry-hit key seconds (at_time t w) key,
    ==_refl key,
    lt→ltb t limit h.0,
    entry-mark_all (suc n) limit ts (hit key seconds (at_time t w)).1,
  )

  -- The first mark opens a window of `seconds`: until it closes the counter holds the number of
  -- marks made in it, however many there are, and from then on it reads zero.
  pub count-mark_all :
      (t₀ : ℕ) (ts : List ℕ) (w : World) (t : ℕ)
      → stored key (at_time t₀ w) ≡ none
      → All (λ t. t < t₀ + seconds * second) ts
      → (count key (at_time t (mark_all key seconds (t₀ ∷ ts) w))).0
        ≡ ok (if ltb t (t₀ + seconds * second) then suc (length ts) else 0)
  unfolding count
  count-mark_all t₀ ts w t fresh inside = ground (
    arith,
    entry-hit key seconds (at_time t₀ w) key,
    ==_refl key,
    entry-mark_all 0 (t₀ + seconds * second) ts (hit key seconds (at_time t₀ w)).1,
  )
