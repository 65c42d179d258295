-- ===== src/Messaging/Instances.antt =====
-- Two instances of the service that run `publish_batch` of
-- src/users_api/infrastructure/rabbitmq/outbox_publisher.py on one outbox, while requests add rows:
-- SKIP LOCKED hides from each the rows that the other holds, until the other's transaction ends.
pub mod Counting
pub mod Accounts
pub mod Deliveries
use udesa_x_users_api.Common.{
  ℕ, suc, ◌+◌, Bool, true, false, not, ◌||◌, List, [], ◌∷◌, ◌++◌, keep, if◌then◌else◌,
}
use udesa_x_users_api.Model.Event.{OutboxRow}
use udesa_x_users_api.Messaging.Publisher.{is_among, batch}

-- An instance between two transactions, or in one: the rows that it has still to publish, those that it
-- published, and those that it leaves in the table, all of them locked until the transaction ends.
pub data Instance : Type 0 where
  waiting : Instance
  working : (todo done passed : List OutboxRow) → Instance

pub data Side : Type 0 where
  left right : Side

-- How a publication ends. A failure that comes after the broker took the message looks the same to
-- the instance as one that comes before.
pub data Ending : Type 0 where
  confirmed returned failed failed_after : Ending

-- What happens, one thing at a time.
pub data Happening : Type 0 where
  adds : OutboxRow → Happening
  begins commits dies : Side → Happening
  publishes : Side → Ending → Happening

-- The table as it is committed, the two instances, what the broker took so far, the rows ever added,
-- and the rows that the broker took and whose deletion an instance did not get to commit, once for each
-- time.
pub record Shared : Type 0 where
  pub table : List OutboxRow
  pub left_side : Instance
  pub right_side : Instance
  pub taken : List OutboxRow
  pub added : List OutboxRow
  pub lost : List OutboxRow

abbrev pub instance_of : Side → Shared → Instance
instance_of left s = s.left_side
instance_of right s = s.right_side

abbrev pub other_of : Side → Shared → Instance
other_of left s = s.right_side
other_of right s = s.left_side

abbrev pub set_instance : Side → Instance → Shared → Shared
set_instance left i s = record s { left_side = i }
set_instance right i s = record s { right_side = i }

-- The rows that an instance holds locked.
abbrev pub is_held : Instance → OutboxRow → Bool
is_held waiting r = false
is_held (working todo done passed) r = is_among todo r || is_among done r || is_among passed r

-- `with_for_update(skip_locked=True)` in the order and up to the limit of a batch.
unfoldable pub lock_batch : Instance → List OutboxRow → List OutboxRow
unfolding batch
lock_batch other table = batch (keep (λ r. not (is_held other r)) table)

-- The loop of `publish_batch` at one row.
unfoldable pub publish_next : Side → Ending → Instance → Shared → Shared
publish_next side ending waiting s = s
publish_next side ending (working [] done passed) s = s
publish_next side confirmed (working (r ∷ todo) done passed) s =
    set_instance side (working todo (r ∷ done) passed) (record s { taken = r ∷ s.taken })
publish_next side returned (working (r ∷ todo) done passed) s =
    set_instance side (working todo done (r ∷ passed)) s
publish_next side failed (working (r ∷ todo) done passed) s =
    set_instance side (working [] done ((r ∷ todo) ++ passed)) s
publish_next side failed_after (working (r ∷ todo) done passed) s =
    set_instance side (working [] done ((r ∷ todo) ++ passed))
      (record s { taken = r ∷ s.taken; lost = r ∷ s.lost })

unfoldable pub begin : Side → Instance → Shared → Shared
unfolding lock_batch
begin side waiting s = set_instance side (working (lock_batch (other_of side s) s.table) [] []) s
begin side (working todo done passed) s = s

-- The end of the transaction, when the loop is over: the published rows are deleted, and the locks on
-- the others released.
unfoldable pub commit : Side → Instance → Shared → Shared
commit side (working [] done passed) s =
    set_instance side waiting (record s { table = keep (λ r. not (is_among done r)) s.table })
commit side _ s = s

-- The instance stops in the middle of a transaction, and the database rolls it back.
unfoldable pub die : Side → Instance → Shared → Shared
die side waiting s = s
die side (working todo done passed) s =
    set_instance side waiting (record s { lost = done ++ s.lost })

-- An id is not given to two rows.
unfoldable pub happen : Happening → Shared → Shared
unfolding publish_next begin commit die
happen (adds r) s =
    if is_among s.table r || is_among s.taken r
    then s
    else record s { table = s.table ++ r ∷ []; added = r ∷ s.added }
happen (begins side) s = begin side (instance_of side s) s
happen (publishes side ending) s = publish_next side ending (instance_of side s) s
happen (commits side) s = commit side (instance_of side s) s
happen (dies side) s = die side (instance_of side s) s

unfoldable pub happen_all : List Happening → Shared → Shared
unfolding happen
happen_all [] s = s
happen_all (h ∷ hs) s = happen_all hs (happen h s)

-- An empty outbox, and nothing published.
abbrev pub at_rest : Shared
at_rest = record {
  table = [];
  left_side = waiting;
  right_side = waiting;
  taken = [];
  added = [];
  lost = [];
}
