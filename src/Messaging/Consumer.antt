-- ===== src/Messaging/Consumer.antt =====
-- `EventConsumer._settle` of src/users_api/infrastructure/rabbitmq/event_consumer.py and the handler of
-- src/users_api/api/event_handlers.py.
pub mod Redelivery
use udesa_x_users_api.Common.{ℕ, Option, none, some, Text, ◌>>=◌}
use udesa_x_users_api.Model.Event.{AuditEntry}
use udesa_x_users_api.Platform.{Platform}
use udesa_x_users_api.World.State.{World}
use udesa_x_users_api.World.Exec.{Result, ok, err, Action, None, pure, ◌>>◌}
use udesa_x_users_api.Messaging.AuditEvents.{AuditMessage, entry_of}
use udesa_x_users_api.Store.Records.{add_entry}
use udesa_x_users_api.Api.Request.{session_scope}

pub data Outcome : Type 0 where
  ack reject : Outcome

-- What the broker is told of a message.
pub data Settlement : Type 0 where
  acked dead_lettered requeued : Settlement

module _ ⦃p : Platform⦄ where
  -- The entry of a valid event is added in a transaction of its own.
  unfoldable pub handle_entry : Option AuditEntry → World → Result Outcome × World
  unfolding session_scope
  handle_entry none w = (ok reject, w)
  handle_entry (some entry) w = session_scope (add_entry entry >> pure ack) w

  -- A body that is not JSON of the shape of an event is nothing.
  unfoldable pub handle :
      (Text → Option Text) → Option AuditMessage → World → Result Outcome × World
  unfolding handle_entry entry_of
  handle email_str body w = handle_entry (body >>= λ message. entry_of email_str message) w

  abbrev pub settlement : Result Outcome → Settlement
  settlement (ok ack) = acked
  settlement (ok reject) = dead_lettered
  settlement (err e) = requeued

  -- `_settle` for one message.
  unfoldable pub settle : (World → Result Outcome × World) → World → Settlement × World
  settle handler w = let (outcome, w') = handler w in (settlement outcome, w')
