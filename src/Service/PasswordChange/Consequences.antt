-- ===== src/Service/PasswordChange/Consequences.antt =====
-- What a changed password closes.
use udesa_x_users_api.Common.{
  ◌+◌, ◌*◌, [], ◌∷◌, ◌++◌, ◌==◌, ◌/◌, ◌<◌, ◌≡◌, true, false, some, any, map_where, Text, ==_refl,
  text_eq, nat_eq, arith, suc,
}
use udesa_x_users_api.Config.{Settings}
use udesa_x_users_api.Model.Account.{User}
use udesa_x_users_api.Model.Event.{Event, password_changed}
use udesa_x_users_api.Platform.{Platform, second}
use udesa_x_users_api.World.State.{World}
use udesa_x_users_api.World.Exec.{ok}
use udesa_x_users_api.Store.Users
use udesa_x_users_api.Store.Users.{has_id, overwrite}
use udesa_x_users_api.Store.RefreshTokens
use udesa_x_users_api.Store.RefreshTokens.{is_open_of}
use udesa_x_users_api.Store.RefreshTokens.Laws.{any-is_open_of}
use udesa_x_users_api.Store.Records.{build_event, add_event}
use udesa_x_users_api.Cache.RateLimiter.{stored, marks_of, count, reset}
use udesa_x_users_api.Cache.Sessions.{revoked_sessions_key}
use udesa_x_users_api.Cache.Sessions.Laws.{
  entry-revoke_all, result-revoke_all, db-revoke_all, clock-revoke_all, drawn-revoke_all,
}
use udesa_x_users_api.Security.{hash_password, verify_password}
use udesa_x_users_api.Security.Passwords.{verify_password-hash}
use udesa_x_users_api.Service.Auth.Login.{session_seconds}
use udesa_x_users_api.Service.CurrentPassword.{
  policy, attempts_key, guard_attempts, verify, forget_attempts,
}
use udesa_x_users_api.Service.PasswordChange.{with_own_password, set_password, change_password}

module _ ⦃p : Platform⦄ (settings : Settings) (user : User) (current new : Text) (w : World) where
  abbrev pub owned : User
  owned = with_own_password user (p.argon2_hash w.drawn new)

  abbrev pub news : Event
  news = record {
    id = p.uuid4 (suc w.drawn);
    time = w.clock / 1000;
    payload = password_changed user;
  }

  -- Where the cutoff is written, and what is left before the event is added.
  abbrev before : World
  before = record w {
    db = record w.db { users = map_where (has_id user.id) (overwrite owned) w.db.users };
    redis = p.delete (attempts_key settings user) w.redis;
    drawn = suc w.drawn;
  }

  -- The right password and a different new one, below the limit of attempts, where the id drawn for the
  -- event is new: the operation ends well, the stored account gets a hash that verifies the new password
  -- and owes no change of password, every other account stays as it was, the outbox gains the event of
  -- the change at its end, none of the account's refresh tokens is left open, and the cutoff of its
  -- access tokens is the present second.
  pub change_password-replaces :
      0 < session_seconds settings
      → marks_of (stored (attempts_key settings user) w) < (policy settings).max_attempts
      → verify_password current (some user.password_hash) ≡ true
      → verify_password new (some user.password_hash) ≡ false
      → any (λ r. r.event.id == p.uuid4 (suc w.drawn)) w.db.outbox ≡ false
      → let (answer, w') = change_password settings user current new w in
        (answer ≡ ok tt)
        × (w'.db.users ≡ map_where (has_id user.id) (overwrite owned) w.db.users)
        × (verify_password new (some owned.password_hash) ≡ true)
        × (owned.must_change_password ≡ false)
        × (w'.db.outbox ≡ w.db.outbox ++ record { event = news; created_at = w.clock } ∷ [])
        × (any (is_open_of user.id) w'.db.refresh_tokens ≡ false)
        × (p.entry w'.redis (revoked_sessions_key user.id)
            ≡ some (record {
              value = w.clock / second;
              deadline = some (w.clock + session_seconds settings * second);
            }))
  unfolding change_password set_password verify guard_attempts count hash_password Users.update
      forget_attempts reset RefreshTokens.revoke_all build_event add_event
  change_password-replaces lasting under right changed free = ground (
    arith,
    under,
    right,
    changed,
    free,
    verify_password-hash w.drawn new,
    any-is_open_of user.id w.clock w.db.refresh_tokens,
    result-revoke_all user.id w.clock (session_seconds settings) before lasting,
    db-revoke_all user.id w.clock (session_seconds settings) before,
    clock-revoke_all user.id w.clock (session_seconds settings) before,
    drawn-revoke_all user.id w.clock (session_seconds settings) before,
    entry-revoke_all user.id w.clock (session_seconds settings) before
        (revoked_sessions_key user.id) lasting,
    ==_refl (revoked_sessions_key user.id),
  )
