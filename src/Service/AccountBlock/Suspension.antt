-- ===== src/Service/AccountBlock/Suspension.antt =====
-- What blocking an account writes.
use udesa_x_users_api.Common.{
  ℕ, suc, ◌+◌, ◌*◌, ◌/◌, ◌<◌, ◌≡◌, refl, true, false, some, List, [], ◌∷◌, find?-map_where,
  find?-eq_some, beq_ℕ_iff, ◌++◌, any, find?, map_where, Text, ◌==◌, ==_refl, nat_eq, text_eq,
  arith, if◌then◌else◌,
}
use udesa_x_users_api.Config.{Settings}
use udesa_x_users_api.Model.Account.{
  suspended, User, status_eq, is_deleted, is_administrator, change_status,
}
use udesa_x_users_api.Model.Event.{AuditEntry, user_blocked, details_reason}
use udesa_x_users_api.Platform.{Platform, second}
use udesa_x_users_api.World.State.{World}
use udesa_x_users_api.World.Exec.{ok}
use udesa_x_users_api.Store.Users
use udesa_x_users_api.Store.Users.{has_id, overwrite}
use udesa_x_users_api.Store.RefreshTokens
use udesa_x_users_api.Store.RefreshTokens.{is_open_of, mark_revoked}
use udesa_x_users_api.Store.RefreshTokens.Laws.{any-is_open_of}
use udesa_x_users_api.Store.Records.{add_entry}
use udesa_x_users_api.Cache.Sessions
use udesa_x_users_api.Cache.Sessions.{revoked_sessions_key}
use udesa_x_users_api.Cache.Sessions.Laws.{entry-revoke_all, result-revoke_all, db-revoke_all}
use udesa_x_users_api.Service.Auth.Login.{session_seconds}
use udesa_x_users_api.Service.Audit.{administrator, record_action}
use udesa_x_users_api.Service.AccountBlock.{suspend, block}

module _ ⦃p : Platform⦄ (settings : Settings) (admin : User) (reason : Text) (w : World) where
  abbrev pub blocked : User → User
  blocked user = change_status user suspended w.clock (some reason)

  -- The entry of the log.
  abbrev pub entry_for : User → User → AuditEntry
  entry_for actor user = record {
    id = p.uuid4 w.drawn;
    occurred_at = w.clock;
    actor_id = actor.id;
    actor_email = actor.email;
    action = user_blocked;
    target_id = user.id;
    details = details_reason reason;
  }

  -- The log after the block: an entry whose id is taken is not written.
  abbrev pub logged : User → User → List AuditEntry
  logged actor user =
      if any (λ r. r.id == p.uuid4 w.drawn) w.db.audit_log
      then w.db.audit_log
      else w.db.audit_log ++ entry_for actor user ∷ []

  -- Where the cutoff is written.
  abbrev before : User → User → World
  before actor user = record w {
    db = record w.db {
      users = map_where (has_id user.id) (overwrite (blocked user)) w.db.users;
      refresh_tokens = map_where (is_open_of user.id) (mark_revoked w.clock) w.db.refresh_tokens;
      audit_log = logged actor user;
    };
    drawn = suc w.drawn;
  }

  -- The administrator is found after the update as before it.
  actor_kept :
      (n : ℕ) (actor user : User)
      → find? (has_id n) w.db.users ≡ some user
      → is_administrator user ≡ false
      → find? (has_id admin.id) w.db.users ≡ some actor
      → is_administrator actor ≡ true
      → find? (has_id admin.id) (map_where (has_id user.id) (overwrite (blocked user)) w.db.users)
        ≡ some actor
  unfolding overwrite
  actor_kept n actor user found plain acts rank = ground (
    arith,
    found,
    plain,
    acts,
    rank,
    find?-map_where (has_id admin.id) (has_id user.id) (overwrite (blocked user)) w.db.users
        (λ x. refl),
    find?-eq_some (has_id n) w.db.users user found,
    find?-eq_some (has_id admin.id) w.db.users actor acts,
    beq_ℕ_iff user.id n,
    beq_ℕ_iff actor.id admin.id,
    beq_ℕ_iff actor.id user.id,
  )

  suspends :
      (actor user : User)
      → 0 < session_seconds settings
      → find? (has_id admin.id) (map_where (has_id user.id) (overwrite (blocked user)) w.db.users)
        ≡ some actor
      → is_administrator actor ≡ true
      → is_deleted actor ≡ false
      → suspend settings admin user reason w
        ≡ Sessions.revoke_all user.id w.clock (session_seconds settings) (before actor user)
  unfolding suspend Users.get Users.update RefreshTokens.revoke_all record_action administrator
      add_entry change_status
  suspends actor user lasting acts rank current = ground (arith, acts, rank, current)

  -- Blocking a stored account that is neither deleted, nor an administrator's, nor blocked, by a stored
  -- administrator that is not deleted: it is suspended with the reason and the instant, the log gains an
  -- entry of the administrator with the reason unless the id drawn for it is taken, none of its refresh tokens is left open, and the cutoff of its access tokens is the present
  -- second.
  pub block-suspends :
      (n : ℕ) (actor user : User)
      → 0 < session_seconds settings
      → find? (has_id n) w.db.users ≡ some user
      → is_deleted user ≡ false
      → is_administrator user ≡ false
      → (user.status == suspended) ≡ false
      → find? (has_id admin.id) w.db.users ≡ some actor
      → is_administrator actor ≡ true
      → is_deleted actor ≡ false
      → let (r, w') = block settings admin n reason w in
        (r ≡ ok tt)
        × (w'.db.users ≡ map_where (has_id user.id) (overwrite (blocked user)) w.db.users)
        × (w'.db.audit_log ≡ logged actor user)
        × (any (is_open_of user.id) w'.db.refresh_tokens ≡ false)
        × (p.entry w'.redis (revoked_sessions_key user.id)
            ≡ some (record {
              value = w.clock / second;
              deadline = some (w.clock + session_seconds settings * second);
            }))
  unfolding block Users.get
  block-suspends n actor user lasting found kept plain unblocked acts rank current = ground (
    arith,
    found,
    kept,
    plain,
    unblocked,
    suspends actor user lasting (actor_kept n actor user found plain acts rank) rank current,
    any-is_open_of user.id w.clock w.db.refresh_tokens,
    result-revoke_all user.id w.clock (session_seconds settings) (before actor user) lasting,
    db-revoke_all user.id w.clock (session_seconds settings) (before actor user),
    entry-revoke_all user.id w.clock (session_seconds settings) (before actor user)
        (revoked_sessions_key user.id) lasting,
    ==_refl (revoked_sessions_key user.id),
  )
