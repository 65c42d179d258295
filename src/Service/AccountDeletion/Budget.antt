-- ===== src/Service/AccountDeletion/Budget.antt =====
-- One budget of failed attempts for the operations that ask for the current password.
use udesa_x_users_api.Common.{
  ℕ, suc, ◌+◌, ◌*◌, ◌≤◌, ◌<◌, ◌≡◌, ap, false, List, [], ◌∷◌, none, some, Text, length, All, arith,
  text_eq,
}
use udesa_x_users_api.Config.{Settings}
use udesa_x_users_api.Model.Account.{User, is_administrator}
use udesa_x_users_api.Model.Problem.{problem}
use udesa_x_users_api.Platform.{Platform, second}
use udesa_x_users_api.World.State.{Database, World}
use udesa_x_users_api.World.Exec.{err}
use udesa_x_users_api.Cache.RateLimiter.{stored, marks_of, count, hit}
use udesa_x_users_api.Cache.RateLimiter.Window.{at_time, result-hit}
use udesa_x_users_api.Cache.RateLimiter.Spending.{FailsBefore, attempt_each, limit-le-failures}
use udesa_x_users_api.Security.{verify_password}
use udesa_x_users_api.Service.Lockout.{window_seconds}
use udesa_x_users_api.Service.CurrentPassword.{
  policy, attempts_key, guard_attempts, verify, too_many_password_attempts,
  current_password_invalid,
}
use udesa_x_users_api.Service.PasswordReset.{change_failed_title}
use udesa_x_users_api.Service.PasswordChange.{change_password}
use udesa_x_users_api.Service.AccountDeletion.{deletion_failed_title, delete_account}

module _ ⦃p : Platform⦄ (settings : Settings) (user : User) (current new : Text) (w : World) where
  -- The failed attempts of the account.
  abbrev spent : ℕ
  spent = marks_of (stored (attempts_key settings user) w)

  -- A wrong password costs the same mark in the two operations, and nothing else changes.
  budget-shared :
      spent < (policy settings).max_attempts
      → is_administrator user ≡ false
      → verify_password current (some user.password_hash) ≡ false
      → let marked = (hit (attempts_key settings user) (window_seconds (policy settings)) w).1 in
        (change_password settings user current new w
          ≡ (err (problem (current_password_invalid change_failed_title)), marked))
        × (delete_account settings user current w
            ≡ (err (problem (current_password_invalid deletion_failed_title)), marked))
  unfolding change_password delete_account verify guard_attempts count
  budget-shared under plain wrong = (
    ground (
      arith,
      under,
      wrong,
      result-hit (attempts_key settings user) (window_seconds (policy settings)) w,
    ),
    ground (
      arith,
      under,
      plain,
      wrong,
      result-hit (attempts_key settings user) (window_seconds (policy settings)) w,
    ),
  )

  -- Once the budget is spent both operations are refused, with whatever password, and neither changes
  -- anything.
  budget-spent :
      (policy settings).max_attempts ≤ spent
      → is_administrator user ≡ false
      → (change_password settings user current new w
          ≡ (err (problem (too_many_password_attempts (policy settings))), w))
        × (delete_account settings user current w
            ≡ (err (problem (too_many_password_attempts (policy settings))), w))
  unfolding change_password delete_account verify guard_attempts count
  budget-spent over plain = (ground (arith, over), ground (arith, over, plain))

-- An operation that asks for the current password, with what the caller sends.
pub data Attempt : Type 0 where
  changes : (current_password new_password : Text) → Attempt
  deletes : (current_password : Text) → Attempt

abbrev pub offered : Attempt → Text
offered (changes current new) = current
offered (deletes current) = current

module _ ⦃p : Platform⦄ (settings : Settings) (user : User) where
  abbrev key : Text
  key = attempts_key settings user

  abbrev seconds : ℕ
  seconds = window_seconds (policy settings)

  abbrev limit : ℕ
  limit = (policy settings).max_attempts

  abbrev attempt : Attempt → World → World
  attempt (changes current new) w = (change_password settings user current new w).1
  attempt (deletes current) w = (delete_account settings user current w).1

  -- The world after attempts, each at an instant.
  abbrev pub attempt_all : List (ℕ × Attempt) → World → World
  attempt_all = attempt_each attempt

  -- The attempt brings a wrong password; the account is the one that the request has read.
  abbrev pub IsWrong : Database → Attempt → Type 0
  IsWrong db a = verify_password (offered a) (some user.password_hash) ≡ false

  attempt-marks :
      (plain : is_administrator user ≡ false) (t : ℕ) (a : Attempt) (w : World)
      → marks_of (stored key (at_time t w)) < limit
      → IsWrong w.db a
      → attempt a (at_time t w) ≡ (hit key seconds (at_time t w)).1
  attempt-marks plain t (changes current new) w few wrong =
      ap (λ r. r.1) (budget-shared settings user current new (at_time t w) few plain wrong).0
  attempt-marks plain t (deletes current) w few wrong =
      ap (λ r. r.1) (budget-shared settings user current [] (at_time t w) few plain wrong).1

  -- Of an account that is no administrator's: when as many attempts as the limit bring a wrong current
  -- password, each to the change of the password or to the deletion of the account in any mixture, all
  -- within the window that the first of them opens, both operations are refused in the rest of that
  -- window, with whatever password, and neither changes anything.
  pub attempt_all-locks :
      (t₀ : ℕ) (first : Attempt) (attempts : List (ℕ × Attempt)) (w : World) (t : ℕ)
      (current new : Text)
      → is_administrator user ≡ false
      → stored key (at_time t₀ w) ≡ none
      → IsWrong w.db first
      → All (FailsBefore IsWrong (t₀ + seconds * second) w.db) attempts
      → suc (length attempts) ≡ limit
      → t < t₀ + seconds * second
      → let w' = at_time t (attempt_all ((t₀, first) ∷ attempts) w) in
        (change_password settings user current new w'
          ≡ (err (problem (too_many_password_attempts (policy settings))), w'))
        × (delete_account settings user current w'
            ≡ (err (problem (too_many_password_attempts (policy settings))), w'))
  attempt_all-locks t₀ first attempts w t current new plain fresh wrong fails enough inside =
      budget-spent settings user current new (at_time t (attempt_all ((t₀, first) ∷ attempts) w))
        (limit-le-failures key seconds limit attempt IsWrong (attempt-marks plain) t₀ first attempts
          w t fresh wrong fails enough inside)
        plain
