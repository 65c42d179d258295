-- ===== src/Cache/RateLimiter/Spending.antt =====
-- Attempts that each leave a mark on one counter, until their number reaches a limit.
use udesa_x_users_api.Common.{
  ℕ, suc, ◌+◌, ◌*◌, ◌≤◌, ◌<◌, ◌≡◌, refl, ap, List, [], ◌∷◌, none, some, Text, length, All, arith,
  lt→ltb, ==_refl, text_eq,
}
use udesa_x_users_api.Platform.{Platform, second}
use udesa_x_users_api.World.State.{Database, World}
use udesa_x_users_api.Cache.RateLimiter.{stored, marks_of, count, hit}
use udesa_x_users_api.Cache.RateLimiter.Window.{
  at_time, mark_all, entry-hit, db-hit, count-mark_all,
}

module _ {A : Type 0} where
  -- The attempt comes before an instant, and fails.
  abbrev pub FailsBefore : (Database → A → Type 0) → ℕ → Database → ℕ × A → Type 0
  FailsBefore Fails end db a = (a.0 < end) × Fails db a.1

  abbrev instants : List (ℕ × A) → List ℕ
  instants [] = []
  instants (a ∷ attempts) = a.0 ∷ instants attempts

  length-instants : (attempts : List (ℕ × A)) → length (instants attempts) ≡ length attempts
  length-instants [] = refl
  length-instants (a ∷ attempts) = ap suc (length-instants attempts)

  instants-before :
      (Fails : Database → A → Type 0) (end : ℕ) (db : Database) (attempts : List (ℕ × A))
      → All (FailsBefore Fails end db) attempts
      → All (λ t. t < end) (instants attempts)
  instants-before Fails end db [] h = tt
  instants-before Fails end db (a ∷ attempts) h = (h.0.0, instants-before Fails end db attempts h.1)

module _ ⦃p : Platform⦄ {A : Type 0} where
  -- The world after attempts, each at an instant.
  abbrev pub attempt_each : (A → World → World) → List (ℕ × A) → World → World
  attempt_each attempt [] w = w
  attempt_each attempt ((t, a) ∷ rest) w = attempt_each attempt rest (attempt a (at_time t w))

module _ ⦃p : Platform⦄ {A : Type 0} (key : Text) (seconds limit : ℕ) (attempt : A → World → World)
    (Fails : Database → A → Type 0)
    (attempt-marks : (t : ℕ) (a : A) (w : World)
      → marks_of (stored key (at_time t w)) < limit
      → Fails w.db a
      → attempt a (at_time t w) ≡ (hit key seconds (at_time t w)).1) where
  each-mark_all :
      (n end : ℕ) (attempts : List (ℕ × A)) (w : World)
      → p.entry w.redis key ≡ some (record { value = suc n; deadline = some end })
      → All (FailsBefore Fails end w.db) attempts
      → suc n + length attempts ≤ limit
      → attempt_each attempt attempts w ≡ mark_all key seconds (instants attempts) w
  each-mark_all n end [] w e h few = refl
  each-mark_all n end ((t, a) ∷ attempts) w e h few =
      rw (attempt-marks t a w (ground (arith, e)) h.0.1) (
        each-mark_all (suc n) end attempts (hit key seconds (at_time t w)).1
          (ground (
            arith,
            e,
            h.0.0,
            entry-hit key seconds (at_time t w) key,
            ==_refl key,
            lt→ltb t end h.0.0,
          ))
          (rw (db-hit key seconds (at_time t w)) h.1) (omega (arith, few)))

  failures-mark_all :
      (t₀ : ℕ) (first : A) (attempts : List (ℕ × A)) (w : World)
      → stored key (at_time t₀ w) ≡ none
      → Fails w.db first
      → All (FailsBefore Fails (t₀ + seconds * second) w.db) attempts
      → suc (length attempts) ≡ limit
      → attempt_each attempt ((t₀, first) ∷ attempts) w
        ≡ mark_all key seconds (t₀ ∷ instants attempts) w
  failures-mark_all t₀ first attempts w fresh failed fails enough =
      rw (attempt-marks t₀ first w (ground (arith, fresh, enough)) failed) (
        each-mark_all 0 (t₀ + seconds * second) attempts (hit key seconds (at_time t₀ w)).1
          (ground (arith, fresh, entry-hit key seconds (at_time t₀ w) key, ==_refl key))
          (rw (db-hit key seconds (at_time t₀ w)) fails) (omega (arith, enough)))

  -- As many failures as the limit, within the window that the first of them opens, fill the counter for
  -- the rest of that window.
  pub limit-le-failures :
      (t₀ : ℕ) (first : A) (attempts : List (ℕ × A)) (w : World) (t : ℕ)
      → stored key (at_time t₀ w) ≡ none
      → Fails w.db first
      → All (FailsBefore Fails (t₀ + seconds * second) w.db) attempts
      → suc (length attempts) ≡ limit
      → t < t₀ + seconds * second
      → limit ≤ marks_of (stored key (at_time t (attempt_each attempt ((t₀, first) ∷ attempts) w)))
  unfolding count
  limit-le-failures t₀ first attempts w t fresh failed fails enough inside =
      rw (failures-mark_all t₀ first attempts w fresh failed fails enough) (
        ground (
          arith,
          inside,
          enough,
          lt→ltb t (t₀ + seconds * second) inside,
          length-instants attempts,
          count-mark_all key seconds t₀ (instants attempts) w t fresh
              (instants-before Fails (t₀ + seconds * second) w.db attempts fails),
        ))
