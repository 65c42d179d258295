-- ===== src/Store/Records.antt =====
-- src/users_api/infrastructure/database/{outbox,feedback,audit}_repository.py: the tables that are only
-- added to, and `build_event` of src/users_api/app/events.py.
use udesa_x_users_api.Common.{ℕ, ◌/◌, [], ◌∷◌, ◌++◌, ◌==◌, nat_eq, any, if◌then◌else◌}
use udesa_x_users_api.Model.Event.{Feedback, AuditEntry, Payload, Event}
use udesa_x_users_api.Model.Problem.{integrity_error}
use udesa_x_users_api.Platform.{Platform}
use udesa_x_users_api.World.Exec.{
  Action, None, pure, gets, raise_if, on_db, utc_now, draw, ◌>>=◌, ◌>>◌,
}

module _ ⦃p : Platform⦄ where
  -- The time is spelled with milliseconds, and truncated to them.
  unfoldable pub build_event : Payload → ℕ → Action Event
  build_event payload now = do
    n ← draw
    pure (record { id = p.uuid4 n; time = now / 1000; payload = payload })

  -- `OutboxRepository.add`
  unfoldable pub add_event : Event → Action None
  add_event event = do
    created_at ← utc_now
    rows ← gets (λ w. w.db.outbox)
    raise_if (any (λ r. r.event.id == event.id) rows) integrity_error
    on_db λ db. record db {
      outbox = db.outbox ++ record { event = event; created_at = created_at } ∷ [];
    }

  -- `FeedbackRepository.add`
  unfoldable pub add_feedback : Feedback → Action None
  add_feedback feedback = do
    rows ← gets (λ w. w.db.feedback)
    raise_if (any (λ r. r.id == feedback.id) rows) integrity_error
    on_db (λ db. record db { feedback = db.feedback ++ feedback ∷ [] })

  -- `AuditLogRepository.add`: ON CONFLICT DO NOTHING.
  unfoldable pub add_entry : AuditEntry → Action None
  add_entry entry = on_db λ db. record db {
    audit_log =
        if any (λ r. r.id == entry.id) db.audit_log
        then db.audit_log
        else db.audit_log ++ entry ∷ [];
  }
