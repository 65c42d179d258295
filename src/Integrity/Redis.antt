-- ===== src/Integrity/Redis.antt =====
-- The counters and the closed sessions are in Redis: no table changes.
use udesa_x_users_api.Common.{ℕ, nat_eq, ◌≡◌, refl, Text, arith}
use udesa_x_users_api.Platform.{Platform}
use udesa_x_users_api.World.State.{World}
use udesa_x_users_api.World.Exec.{Action}
use udesa_x_users_api.World.Ensures.{Keeps, anything}
use udesa_x_users_api.Cache.RateLimiter.{hit, count, reset}
use udesa_x_users_api.Cache.Sessions
use udesa_x_users_api.Integrity.{IsConsistent}

module _ ⦃p : Platform⦄ where
  -- An action that writes no table.
  pub quiet-Keeps :
      {A : Type 0} (m : Action A) → ((w : World) → (m w).1.db ≡ w.db) → Keeps IsConsistent m
  quiet-Keeps m same = record { at = λ w h. (rw (same w) h, anything (m w).0) }

  pub hit-Keeps : (key : Text) (seconds : ℕ) → Keeps IsConsistent (hit key seconds)
  unfolding hit
  hit-Keeps key seconds = quiet-Keeps (hit key seconds) (λ w. ground arith)

  pub count-Keeps : (key : Text) → Keeps IsConsistent (count key)
  unfolding count
  count-Keeps key = quiet-Keeps (count key) (λ w. refl)

  pub reset-Keeps : (key : Text) → Keeps IsConsistent (reset key)
  unfolding reset
  reset-Keeps key = quiet-Keeps (reset key) (λ w. refl)

  pub revoke_token-Keeps :
      (jti expires_at now : ℕ) → Keeps IsConsistent (Sessions.revoke_token jti expires_at now)
  unfolding Sessions.revoke_token
  revoke_token-Keeps jti expires_at now = quiet-Keeps _ (λ w. ground arith)

  pub revoke_sessions-Keeps :
      (user_id now seconds : ℕ) → Keeps IsConsistent (Sessions.revoke_all user_id now seconds)
  unfolding Sessions.revoke_all
  revoke_sessions-Keeps user_id now seconds = quiet-Keeps _ (λ w. ground arith)

  pub is_token_revoked-Keeps : (jti : ℕ) → Keeps IsConsistent (Sessions.is_token_revoked jti)
  unfolding Sessions.is_token_revoked
  is_token_revoked-Keeps jti = quiet-Keeps _ (λ w. refl)

  pub revoked_before-Keeps : (user_id : ℕ) → Keeps IsConsistent (Sessions.revoked_before user_id)
  unfolding Sessions.revoked_before
  revoked_before-Keeps user_id = quiet-Keeps _ (λ w. refl)
