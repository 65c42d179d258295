-- ===== src/Service/AccountDeletion/Consequences.antt =====
-- What a deleted account leaves behind.
use udesa_x_users_api.Common.{
  suc, ◌+◌, ◌*◌, ◌/◌, ◌<◌, ◌≡◌, refl, true, false, some, [], ◌∷◌, ◌++◌, any, find?, find?-map_where,
  find?-eq_some, ap, ◌∙◌, map_where, Text, ◌==◌, ==_refl, text_eq, nat_eq, arith,
}
use udesa_x_users_api.Config.{Settings}
use udesa_x_users_api.Model.Account.{User, is_administrator, can_log_in, is_deleted}
use udesa_x_users_api.Model.Event.{Event, user_deleted}
use udesa_x_users_api.Platform.{Platform, second}
use udesa_x_users_api.World.State.{World}
use udesa_x_users_api.World.Exec.{ok}
use udesa_x_users_api.Store.Users
use udesa_x_users_api.Store.Users.{has_id, overwrite}
use udesa_x_users_api.Store.RefreshTokens
use udesa_x_users_api.Store.RefreshTokens.{is_open_of}
use udesa_x_users_api.Store.RefreshTokens.Laws.{any-is_open_of}
use udesa_x_users_api.Store.Records.{build_event, add_event}
use udesa_x_users_api.Cache.RateLimiter.{stored, marks_of, count}
use udesa_x_users_api.Cache.Sessions.{revoked_sessions_key}
use udesa_x_users_api.Cache.Sessions.Laws.{entry-revoke_all, result-revoke_all, db-revoke_all}
use udesa_x_users_api.Security.{verify_password}
use udesa_x_users_api.Service.Auth.Login.{session_seconds}
use udesa_x_users_api.Service.CurrentPassword.{policy, attempts_key, guard_attempts, verify}
use udesa_x_users_api.Service.AccountDeletion.{deleted, close_account, delete_account}

module _ ⦃p : Platform⦄ (event : Event) (w : World) where
  abbrev with_event : World
  with_event = record w {
    db = record w.db {
      outbox = w.db.outbox ++ record { event = event; created_at = w.clock } ∷ [];
    };
  }

  add_event-new :
      any (λ r. r.event.id == event.id) w.db.outbox ≡ false
      → add_event event w ≡ (ok tt, with_event)
  unfolding add_event
  add_event-new free = rw free refl

module _ ⦃p : Platform⦄ (settings : Settings) (user : User) (current : Text) (w : World) where
  abbrev gone : User
  gone = deleted user w.clock

  abbrev pub news : Event
  news = record { id = p.uuid4 w.drawn; time = w.clock / 1000; payload = user_deleted user }

  -- Where the event is added, and where the cutoff is written.
  abbrev marked : World
  marked = record w {
    db = record w.db { users = map_where (has_id user.id) (overwrite gone) w.db.users };
    drawn = suc w.drawn;
  }

  abbrev before : World
  before = with_event news marked

  -- A proven password leads to the closing of the account, with nothing else changed.
  delete-close_account :
      is_administrator user ≡ false
      → marks_of (stored (attempts_key settings user) w) < (policy settings).max_attempts
      → verify_password current (some user.password_hash) ≡ true
      → delete_account settings user current w ≡ close_account settings user w
  unfolding delete_account verify guard_attempts count
  delete-close_account plain under right = ground (arith, plain, under, right)

  closed :
      0 < session_seconds settings
      → any (λ r. r.event.id == p.uuid4 w.drawn) w.db.outbox ≡ false
      → let (answer, w') = close_account settings user w in
        (answer ≡ ok tt)
        × (w'.db.users ≡ map_where (has_id user.id) (overwrite gone) w.db.users)
        × (w'.db.outbox ≡ w.db.outbox ++ record { event = news; created_at = w.clock } ∷ [])
        × (any (is_open_of user.id) w'.db.refresh_tokens ≡ false)
        × (p.entry w'.redis (revoked_sessions_key user.id)
            ≡ some (record {
              value = w.clock / second;
              deadline = some (w.clock + session_seconds settings * second);
            }))
  unfolding close_account Users.update RefreshTokens.revoke_all build_event
  closed lasting free = ground (
    arith,
    add_event-new news marked free,
    any-is_open_of user.id w.clock w.db.refresh_tokens,
    result-revoke_all user.id w.clock (session_seconds settings) before lasting,
    db-revoke_all user.id w.clock (session_seconds settings) before,
    entry-revoke_all user.id w.clock (session_seconds settings) before
        (revoked_sessions_key user.id) lasting,
    ==_refl (revoked_sessions_key user.id),
  )

  -- The right password of an account that is no administrator's, below the limit of attempts, where the
  -- id drawn for the event is new: the operation ends well, the stored account may not log in and has
  -- the moment of its deletion, the outbox gains the event of the deletion at its end, none of its
  -- refresh tokens is left open, and the cutoff of its access tokens is the present second.
  pub delete_account-closes :
      (row : User)
      → 0 < session_seconds settings
      → is_administrator user ≡ false
      → marks_of (stored (attempts_key settings user) w) < (policy settings).max_attempts
      → verify_password current (some user.password_hash) ≡ true
      → any (λ r. r.event.id == p.uuid4 w.drawn) w.db.outbox ≡ false
      → find? (has_id user.id) w.db.users ≡ some row
      → let (answer, w') = delete_account settings user current w in
        (answer ≡ ok tt)
        × (find? (has_id user.id) w'.db.users ≡ some (overwrite gone row))
        × (can_log_in (overwrite gone row) ≡ false)
        × ((overwrite gone row).deleted_at ≡ some w.clock)
        × (w'.db.outbox ≡ w.db.outbox ++ record { event = news; created_at = w.clock } ∷ [])
        × (any (is_open_of user.id) w'.db.refresh_tokens ≡ false)
        × (p.entry w'.redis (revoked_sessions_key user.id)
            ≡ some (record {
              value = w.clock / second;
              deadline = some (w.clock + session_seconds settings * second);
            }))
  unfolding overwrite can_log_in is_deleted
  delete_account-closes row lasting plain under right free found =
      rw (delete-close_account plain under right) (
        let (answer, users, outbox, tokens, cutoff) = closed lasting free in
        (
          answer,
          ap (find? (has_id user.id)) users
              ∙ find?-map_where (has_id user.id) (has_id user.id) (overwrite gone) w.db.users
                  (λ r. refl)
              ∙ ground (arith, found, find?-eq_some (has_id user.id) w.db.users row found),
          ground arith,
          refl,
          outbox,
          tokens,
          cutoff,
        ))
