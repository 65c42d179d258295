-- ===== src/Messaging/Publisher.antt =====
-- `OutboxPublisher.publish_batch` and `drain` of src/users_api/infrastructure/rabbitmq/outbox_publisher.py.
pub mod Passes
use udesa_x_users_api.Common.{
  ℕ, zero, suc, ◌++◌, Bool, true, false, not, ◌||◌, List, [], ◌∷◌, ◌==◌, nat_eq, ltb, take, keep,
  length, if◌then◌else◌,
}
use udesa_x_users_api.Model.Event.{OutboxRow}

-- How the publication of a row ends: confirmed, `DeliveryError`, or any other exception.
pub data Delivery : Type 0 where
  confirmed undeliverable failed : Delivery

abbrev pub batch_size : ℕ
batch_size = 100

-- The rows in the order of `created_at`, the earlier inserted first where it is the same.
abbrev pub insert : OutboxRow → List OutboxRow → List OutboxRow
insert r [] = r ∷ []
insert r (s ∷ rows) = if ltb s.created_at r.created_at then s ∷ insert r rows else r ∷ s ∷ rows

abbrev pub by_creation : List OutboxRow → List OutboxRow
by_creation [] = []
by_creation (r ∷ rows) = insert r (by_creation rows)

-- What a pass over the rows of a batch leaves: the events published, in order, and whether the pass
-- was cut short.
pub record Pass : Type 0 where
  pub published : List OutboxRow
  pub interrupted : Bool

-- The loop of `publish_batch`. `broker` answers each publication.
unfoldable pub publish_rows : (OutboxRow → Delivery) → List OutboxRow → Pass
publish_rows broker [] = record { published = []; interrupted = false }
publish_rows broker (row ∷ rows) =
    let rest = publish_rows broker rows in
    elim (broker row) [
      | confirmed ↦ record { published = row ∷ rest.published; interrupted = rest.interrupted }
      | undeliverable ↦ rest
      | failed ↦ record { published = []; interrupted = true }
    ]

abbrev pub same_event : OutboxRow → OutboxRow → Bool
same_event a b = a.event.id == b.event.id

abbrev pub is_among : List OutboxRow → OutboxRow → Bool
is_among [] r = false
is_among (s ∷ rows) r = same_event s r || is_among rows r

-- The rows that one pass locks, no other instance holding any.
unfoldable pub batch : List OutboxRow → List OutboxRow
batch outbox = take batch_size (by_creation outbox)

-- The table after a pass: the rows of the published events are deleted.
unfoldable pub publish_batch : (OutboxRow → Delivery) → List OutboxRow → Pass × List OutboxRow
unfolding batch publish_rows
publish_batch broker outbox =
    let pass = publish_rows broker (batch outbox) in
    (pass, keep (λ r. not (is_among pass.published r)) outbox)

-- `if interrupted or published < BATCH_SIZE`
abbrev pub is_last : Pass → Bool
is_last pass = pass.interrupted || ltb (length pass.published) batch_size

-- What a run of `drain` left: every event published, and the table.
pub record Drained : Type 0 where
  pub sent : List OutboxRow
  pub left : List OutboxRow
  pub finished : Bool

-- `drain`, for at most `fuel` passes; `broker` answers in each pass.
unfoldable pub drain : (ℕ → OutboxRow → Delivery) → ℕ → ℕ → List OutboxRow → Drained
unfolding publish_batch
drain broker n zero outbox = record { sent = []; left = outbox; finished = false }
drain broker n (suc fuel) outbox =
    let (pass, outbox') = publish_batch (broker n) outbox in
    let rest = drain broker (suc n) fuel outbox' in
    if is_last pass
    then record { sent = pass.published; left = outbox'; finished = true }
    else record { sent = pass.published ++ rest.sent; left = rest.left; finished = rest.finished }
