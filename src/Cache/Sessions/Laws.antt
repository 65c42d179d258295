-- ===== src/Cache/Sessions/Laws.antt =====
-- What a revocation leaves in Redis.
use udesa_x_users_api.Common.{
  ltb, ℕ, ◌+◌, ◌-◌, ◌*◌, ◌/◌, ◌<◌, ◌≤◌, ◌≡◌, refl, some, false, Text, ◌==◌, text_eq, beq_text,
  arith, if◌then◌else◌,
}
use udesa_x_users_api.Model.Problem.{response_error}
use udesa_x_users_api.Platform.{Platform, second}
use udesa_x_users_api.World.State.{World}
use udesa_x_users_api.World.Exec.{ok, err}
use udesa_x_users_api.Cache.Sessions.{
  revoked_token_key, revoked_sessions_key, revoke_token, revoke_all,
}

-- The two kinds of key never meet.
pub keys_apart : (jti user_id : ℕ) → (revoked_token_key jti == revoked_sessions_key user_id) ≡ false
unfolding revoked_token_key revoked_sessions_key beq_text
keys_apart jti user_id = refl

pub keys_apart' :
    (jti user_id : ℕ) → (revoked_sessions_key user_id == revoked_token_key jti) ≡ false
unfolding revoked_token_key revoked_sessions_key beq_text
keys_apart' jti user_id = refl

module _ ⦃p : Platform⦄ (user_id now ttl : ℕ) (w : World) where
  pub entry-revoke_all :
      (j : Text)
      → 0 < ttl
      → p.entry (revoke_all user_id now ttl w).1.redis j ≡ (
          if revoked_sessions_key user_id == j
          then some (record { value = now / second; deadline = some (w.clock + ttl * second) })
          else p.entry w.redis j)
  unfolding revoke_all
  entry-revoke_all j h = ground (
    arith,
    p.entry-set_ex w.clock (revoked_sessions_key user_id) (now / second) (w.clock + ttl * second) j
        w.redis,
  )

  pub result-revoke_all : 0 < ttl → (revoke_all user_id now ttl w).0 ≡ ok tt
  unfolding revoke_all
  result-revoke_all h = ground arith

  pub db-revoke_all : (revoke_all user_id now ttl w).1.db ≡ w.db
  unfolding revoke_all
  db-revoke_all = ground arith

  pub clock-revoke_all : (revoke_all user_id now ttl w).1.clock ≡ w.clock
  unfolding revoke_all
  clock-revoke_all = ground arith

  pub drawn-revoke_all : (revoke_all user_id now ttl w).1.drawn ≡ w.drawn
  unfolding revoke_all
  drawn-revoke_all = ground arith

module _ ⦃p : Platform⦄ (jti expires_at now : ℕ) (w : World) where
  pub entry-revoke_token :
      (j : Text)
      → now + second ≤ expires_at
      → p.entry (revoke_token jti expires_at now w).1.redis j ≡ (
          if revoked_token_key jti == j
          then some (record {
            value = 1;
            deadline = some (w.clock + (expires_at - now) / second * second);
          })
          else p.entry w.redis j)
  unfolding revoke_token
  entry-revoke_token j h = ground (
    arith,
    p.entry-set_ex w.clock (revoked_token_key jti) 1
        (w.clock + (expires_at - now) / second * second) j w.redis,
  )

  pub result-revoke_token :
      (revoke_token jti expires_at now w).0
      ≡ (if ltb expires_at (now + second) then err response_error else ok tt)
  unfolding revoke_token
  result-revoke_token = ground arith

  pub db-revoke_token : (revoke_token jti expires_at now w).1.db ≡ w.db
  unfolding revoke_token
  db-revoke_token = ground arith

  pub clock-revoke_token : (revoke_token jti expires_at now w).1.clock ≡ w.clock
  unfolding revoke_token
  clock-revoke_token = ground arith
