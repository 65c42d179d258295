-- ===== src/Tests/MessagingRuns.antt =====
-- The outbox and the events consumed.
use udesa_x_users_api.Common.{some, codes, ◌+◌, ◌≤◌, ◌≡◌, refl, [], ◌∷◌, true, List, arith, all}
use udesa_x_users_api.Model.Event.{OutboxRow}
use udesa_x_users_api.Messaging.Publisher.{Delivery, confirmed, undeliverable, drain, publish_batch}
use udesa_x_users_api.Messaging.Publisher.Passes.{
  drain-undeliverable, drain-finishes, drain-conserves, is_confirmed,
}
use udesa_x_users_api.Messaging.AuditEvents.{AuditMessage, admin_action_recorded}
use udesa_x_users_api.Messaging.Consumer.{acked, handle, settle}
use udesa_x_users_api.Messaging.Consumer.Redelivery.{settle-twice}
use udesa_x_users_api.Messaging.Instances.{
  Happening, adds, begins, commits, dies, publishes, left, right, at_rest, happen_all,
}
use udesa_x_users_api.Messaging.Instances
use udesa_x_users_api.Messaging.Instances.Counting.{count}
use udesa_x_users_api.Messaging.Instances.Deliveries.{deliveries-happen_all}
use udesa_x_users_api.Tests.Demo.{demo, empty_world}
use udesa_x_users_api.Tests.Fixtures.{row, entry}

abbrev table : List OutboxRow
table = row 1 20 ∷ row 2 10 ∷ []

drain-undeliverable_example :
    drain (λ n r. undeliverable) 0 1 table ≡ record { sent = []; left = table; finished = true }
unfolding udesa_x_users_api.Messaging.Publisher.batch
drain-undeliverable_example = drain-undeliverable (λ n r. undeliverable) 0 0 table refl

drain-finishes_example : (drain (λ n r. confirmed) 0 3 table).finished ≡ true
drain-finishes_example = drain-finishes (λ n r. confirmed) 0 3 table (omega arith)

drain-conserves_example :
    all (is_confirmed (λ r. confirmed)) (drain (λ n r. confirmed) 0 3 table).sent ≡ true
drain-conserves_example =
    (drain-conserves (λ n r. confirmed) 0 3 table (is_confirmed (λ r. confirmed)) (row 1 20)
      (λ m s h. refl) refl).0

abbrev message : AuditMessage
message = record {
  specversion = codes "1.0";
  id = 70;
  source = codes "posts-api";
  event_type = admin_action_recorded;
  time = 5;
  actor_id = 8;
  actor_email = [];
  action = codes "report.resolved";
  target_type = codes "user";
  target_id = 7;
  reports_count = 6;
}

settle-twice_example : (settle (handle some (some message)) empty_world).0 ≡ acked
unfolding udesa_x_users_api.Messaging.AuditEvents.entry_of udesa_x_users_api.Common.beq_text
settle-twice_example =
    (settle-twice some (some message) entry empty_world
      (settle (handle some (some message)) empty_world).1 refl refl).0

-- The left instance dies between publishing a row and committing, and the right one publishes the row
-- again, and another that the left one never held.
abbrev happenings : List Happening
happenings =
    adds (row 1 10)
    ∷ begins left
    ∷ adds (row 2 20)
    ∷ begins right
    ∷ publishes left Instances.confirmed
    ∷ publishes right Instances.confirmed
    ∷ commits right
    ∷ dies left
    ∷ begins right
    ∷ publishes right Instances.confirmed
    ∷ commits right
    ∷ []

taken_test : count 1 (happen_all happenings at_rest).taken ≡ 2
unfolding count happen_all
taken_test = refl

deliveries-happen_all_example :
    (count 1 (happen_all happenings at_rest).taken
      ≤ 1 + count 1 (happen_all happenings at_rest).lost)
    × (count 1 (happen_all happenings at_rest).added
        ≤ count 1 (happen_all happenings at_rest).table
          + count 1 (happen_all happenings at_rest).taken)
deliveries-happen_all_example = deliveries-happen_all happenings 1
