-- ===== src/Service/Auth/Login/LockingOut.antt =====
-- Failed attempts at the app's door, and the lock that they lead to.
use udesa_x_users_api.Common.{
  ℕ, suc, ◌+◌, ◌*◌, ◌<◌, ◌≡◌, ap, inr, false, List, ◌∷◌, none, Text, length, All, find?, text_eq,
}
use udesa_x_users_api.Text.{normalise}
use udesa_x_users_api.Config.{Settings}
use udesa_x_users_api.Model.Problem.{problem}
use udesa_x_users_api.Platform.{Platform, second}
use udesa_x_users_api.World.State.{Database, World}
use udesa_x_users_api.World.Exec.{err}
use udesa_x_users_api.Store.Users.{has_identifier}
use udesa_x_users_api.Cache.RateLimiter.{stored, marks_of, hit}
use udesa_x_users_api.Cache.RateLimiter.Window.{at_time}
use udesa_x_users_api.Cache.RateLimiter.Spending.{FailsBefore, attempt_each, limit-le-failures}
use udesa_x_users_api.Security.{verify_password}
use udesa_x_users_api.Service.Lockout.{
  policy_key, window_seconds, app_login_policy, too_many_attempts,
}
use udesa_x_users_api.Service.Auth.Login.{hash_of, login}
use udesa_x_users_api.Service.Auth.Login.Outcomes.{login-locked, login-unproven}

module _ ⦃p : Platform⦄ (settings : Settings) (identifier : Text) where
  abbrev key : Text
  key = policy_key (app_login_policy settings) identifier

  abbrev seconds : ℕ
  seconds = window_seconds (app_login_policy settings)

  abbrev limit : ℕ
  limit = (app_login_policy settings).max_attempts

  -- An attempt to log in with a password.
  abbrev attempt : Text → World → World
  attempt password w = (login settings identifier password w).1

  -- The world after attempts to log in, each at an instant and with a password.
  abbrev pub try_all : List (ℕ × Text) → World → World
  try_all = attempt_each attempt

  -- The password proves no account of the database under the identifier.
  abbrev pub Unproven : Database → Text → Type 0
  Unproven db password =
      verify_password password (hash_of (find? (has_identifier (normalise identifier)) db.users))
      ≡ false

  -- A failed attempt below the limit is a mark on the counter.
  login-marks :
      (t : ℕ) (password : Text) (w : World)
      → marks_of (stored key (at_time t w)) < limit
      → Unproven w.db password
      → attempt password (at_time t w) ≡ (hit key seconds (at_time t w)).1
  login-marks t password w few unproven =
      ap (λ r. r.1) (login-unproven settings identifier password (at_time t w) few (inr unproven))

  -- When as many attempts as the limit fail within the window that the first of them opens, every
  -- attempt in the rest of that window is refused, with whatever password, and changes nothing.
  pub try_all-locks :
      (t₀ : ℕ) (first : Text) (attempts : List (ℕ × Text)) (w : World) (t : ℕ) (password : Text)
      → stored key (at_time t₀ w) ≡ none
      → Unproven w.db first
      → All (FailsBefore Unproven (t₀ + seconds * second) w.db) attempts
      → suc (length attempts) ≡ limit
      → t < t₀ + seconds * second
      → let w' = at_time t (try_all ((t₀, first) ∷ attempts) w) in
        login settings identifier password w'
        ≡ (err (problem (too_many_attempts (app_login_policy settings))), w')
  try_all-locks t₀ first attempts w t password fresh unproven fails enough inside =
      login-locked settings identifier password (at_time t (try_all ((t₀, first) ∷ attempts) w)) (
        limit-le-failures key seconds limit attempt Unproven login-marks t₀ first attempts w t fresh
          unproven fails enough inside)
