-- ===== src/Messaging/Consumer/Redelivery.antt =====
-- A message that the broker delivers again.
use udesa_x_users_api.Common.{
  ◌≡◌, refl, Option, none, true, Text, ◌>>=◌, [], ◌∷◌, some, any, any-append, ==_refl, nat_eq, ◌==◌,
  arith,
}
use udesa_x_users_api.Model.Event.{AuditEntry}
use udesa_x_users_api.Platform.{Platform}
use udesa_x_users_api.World.State.{World}
use udesa_x_users_api.Store.Records.{add_entry}
use udesa_x_users_api.Messaging.AuditEvents.{AuditMessage, entry_of}
use udesa_x_users_api.Messaging.Consumer.{acked, dead_lettered, handle, settle}

module _ ⦃p : Platform⦄ (email_str : Text → Option Text) (body : Option AuditMessage) where
  -- A body that is no valid event goes to the dead letters and writes nothing.
  pub settle-invalid :
      (w : World)
      → (body >>= λ message. entry_of email_str message) ≡ none
      → settle (handle email_str body) w ≡ (dead_lettered, w)
  unfolding settle handle
  settle-invalid w invalid = rw invalid refl

  -- A valid event is acknowledged every time it is delivered, the log then has a row of its id, and a
  -- second delivery at any later state of the log that keeps the row writes nothing.
  pub settle-twice :
      (entry : AuditEntry) (w w' : World)
      → (body >>= λ message. entry_of email_str message) ≡ some entry
      → any (λ r. r.id == entry.id) w'.db.audit_log
        ≡ any (λ r. r.id == entry.id) (settle (handle email_str body) w).1.db.audit_log
      → ((settle (handle email_str body) w).0 ≡ acked)
        × (any (λ r. r.id == entry.id) (settle (handle email_str body) w).1.db.audit_log ≡ true)
        × (settle (handle email_str body) w' ≡ (acked, w'))
  unfolding settle handle add_entry
  settle-twice entry w w' valid_event = rw valid_event λ kept.
      let logged : any (λ r. r.id == entry.id) (add_entry entry w).1.db.audit_log ≡ true =
        ground (
          arith,
          any-append (λ r. r.id == entry.id) w.db.audit_log (entry ∷ []),
          ==_refl entry.id,
        ) in
      (refl, logged, ground (arith, kept, logged))
