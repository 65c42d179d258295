-- ===== src/Messaging/Instances/Deliveries.antt =====
-- However two instances of the publisher interleave, how often the broker takes an event.
use udesa_x_users_api.Common.{ℕ, ◌+◌, ◌≤◌, List, [], ◌∷◌, ◌++◌, nat_eq, arith}
use udesa_x_users_api.Model.Event.{OutboxRow}
use udesa_x_users_api.Messaging.Instances.{
  Instance, waiting, working, Side, left, right, Ending, confirmed, returned, failed, failed_after,
  Happening, adds, begins, commits, dies, publishes, Shared, instance_of, other_of, set_instance,
  publish_next, begin, commit, die, happen, happen_all, at_rest,
}
use udesa_x_users_api.Messaging.Instances.Counting.{count, published-held}
use udesa_x_users_api.Messaging.Instances.Accounts.{
  Accounted, swap, add-Accounted, begin-Accounted, confirmed-Accounted, returned-Accounted,
  failed-Accounted, failed_after-Accounted, commit-Accounted, die-Accounted,
}

module _ (e : ℕ) where
  abbrev IsAccounted : Shared → Type 0
  IsAccounted s = Accounted e s.left_side s.right_side s

  -- The right instance does as the left one does.
  placed :
      (side : Side) (i : Instance) (s : Shared) (table taken lost : List OutboxRow)
      → let s' = record s { table = table; taken = taken; lost = lost } in
        Accounted e i (other_of side s) s' → IsAccounted (set_instance side i s')
  placed left i s table taken lost h = record {
    single = h.single;
    unique = h.unique;
    locked = h.locked;
    sent = h.sent;
    once = h.once;
    kept = h.kept;
  }
  placed right i s table taken lost h =
      let k = swap e h in
      record {
        single = k.single;
        unique = k.unique;
        locked = k.locked;
        sent = k.sent;
        once = k.once;
        kept = k.kept;
      }

  -- The invariant, read from one side.
  seen_from :
      (side : Side) (s : Shared)
      → IsAccounted s
      → Accounted e (instance_of side s) (other_of side s) s
  seen_from left s h = h
  seen_from right s h = swap e h

  begin-IsAccounted :
      (side : Side) (i : Instance) (s : Shared)
      → Accounted e i (other_of side s) s
      → IsAccounted s
      → IsAccounted (begin side i s)
  unfolding begin
  begin-IsAccounted side waiting s h as_is =
      placed side _ s s.table s.taken s.lost (begin-Accounted e s (other_of side s) h)
  begin-IsAccounted side (working todo done passed) s h as_is = as_is

  publish_next-IsAccounted :
      (side : Side) (ending : Ending) (i : Instance) (s : Shared)
      → Accounted e i (other_of side s) s
      → IsAccounted s
      → IsAccounted (publish_next side ending i s)
  unfolding publish_next
  publish_next-IsAccounted side ending waiting s h as_is = as_is
  publish_next-IsAccounted side ending (working [] done passed) s h as_is = as_is
  publish_next-IsAccounted side confirmed (working (r ∷ todo) done passed) s h as_is =
      placed side _ s s.table (r ∷ s.taken) s.lost
        (confirmed-Accounted e s (other_of side s) r todo done passed h)
  publish_next-IsAccounted side returned (working (r ∷ todo) done passed) s h as_is =
      placed side _ s s.table s.taken s.lost
        (returned-Accounted e s (other_of side s) r todo done passed h)
  publish_next-IsAccounted side failed (working (r ∷ todo) done passed) s h as_is =
      placed side _ s s.table s.taken s.lost
        (failed-Accounted e s (other_of side s) (r ∷ todo) done passed h)
  publish_next-IsAccounted side failed_after (working (r ∷ todo) done passed) s h as_is =
      placed side _ s s.table (r ∷ s.taken) (r ∷ s.lost)
        (failed_after-Accounted e s (other_of side s) r todo done passed h)

  commit-IsAccounted :
      (side : Side) (i : Instance) (s : Shared)
      → Accounted e i (other_of side s) s
      → IsAccounted s
      → IsAccounted (commit side i s)
  unfolding commit
  commit-IsAccounted side waiting s h as_is = as_is
  commit-IsAccounted side (working (r ∷ todo) done passed) s h as_is = as_is
  commit-IsAccounted side (working [] done passed) s h as_is =
      placed side _ s _ s.taken s.lost (commit-Accounted e s (other_of side s) done passed h)

  die-IsAccounted :
      (side : Side) (i : Instance) (s : Shared)
      → Accounted e i (other_of side s) s
      → IsAccounted s
      → IsAccounted (die side i s)
  unfolding die
  die-IsAccounted side waiting s h as_is = as_is
  die-IsAccounted side (working todo done passed) s h as_is =
      placed side _ s s.table s.taken (done ++ s.lost)
        (die-Accounted e s (other_of side s) todo done passed h)

  happen-IsAccounted : (h : Happening) (s : Shared) → IsAccounted s → IsAccounted (happen h s)
  unfolding happen
  happen-IsAccounted (adds r) s h = add-Accounted e r s h
  happen-IsAccounted (begins side) s h = begin-IsAccounted side _ s (seen_from side s h) h
  happen-IsAccounted (publishes side ending) s h =
      publish_next-IsAccounted side ending _ s (seen_from side s h) h
  happen-IsAccounted (commits side) s h = commit-IsAccounted side _ s (seen_from side s h) h
  happen-IsAccounted (dies side) s h = die-IsAccounted side _ s (seen_from side s h) h

  happen_all-IsAccounted :
      (hs : List Happening) (s : Shared) → IsAccounted s → IsAccounted (happen_all hs s)
  unfolding happen_all
  happen_all-IsAccounted [] s h = h
  happen_all-IsAccounted (x ∷ hs) s h =
      happen_all-IsAccounted hs (happen x s) (happen-IsAccounted x s h)

  at_rest-IsAccounted : IsAccounted at_rest
  unfolding count
  at_rest-IsAccounted = record {
    single = omega arith;
    unique = omega arith;
    locked = omega arith;
    sent = omega arith;
    once = omega arith;
    kept = omega arith;
  }

-- However two instances interleave their passes, with rows that are added meanwhile and with instances
-- that stop in the middle, the broker takes an event at most once more than it took the event and the
-- deletion of its row was lost, by a failure that came after the broker had it or with an instance that
-- stopped; and an event that was added is in the table or was taken by the broker.
pub deliveries-happen_all :
    (hs : List Happening) (e : ℕ)
    → let s = happen_all hs at_rest in
      (count e s.taken ≤ 1 + count e s.lost) × (count e s.added ≤ count e s.table + count e s.taken)
deliveries-happen_all hs e =
    let h = happen_all-IsAccounted e hs at_rest (at_rest-IsAccounted e) in
    (
      omega (
        arith,
        h.once,
        h.locked,
        h.unique,
        published-held e (happen_all hs at_rest).left_side,
        published-held e (happen_all hs at_rest).right_side,
      ),
      h.kept,
    )
