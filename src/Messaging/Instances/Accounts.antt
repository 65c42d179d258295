-- ===== src/Messaging/Instances/Accounts.antt =====
-- What each thing that happens leaves true of the rows of one event.
use udesa_x_users_api.Common.{
  ℕ, ◌+◌, ◌≤◌, ◌≡◌, not, ◌||◌, List, [], ◌∷◌, ◌++◌, ◌==◌, nat_eq, keep, arith, Bool-cases, inl, inr,
}
use udesa_x_users_api.Model.Event.{OutboxRow}
use udesa_x_users_api.Messaging.Publisher.{is_among}
use udesa_x_users_api.Messaging.Instances.{
  Instance, waiting, working, adds, Shared, lock_batch, happen,
}
use udesa_x_users_api.Messaging.Instances.Counting.{
  count, count-append, is_among-count, held, published, count-keep, count-lock_batch,
}

module _ (e : ℕ) where
  -- What is true of the id at every moment, of an instance and the other one.
  pub record Accounted (i j : Instance) (s : Shared) : Type 0 where
    pub single : count e s.added ≤ 1
    pub unique : count e s.table ≤ 1
    pub locked : held e i + held e j ≤ count e s.table
    pub sent : published e i + published e j ≤ count e s.taken
    pub once :
        count e s.taken + count e s.table ≤ 1 + count e s.lost + (published e i + published e j)
    pub kept : count e s.added ≤ count e s.table + count e s.taken

  pub swap : {i j : Instance} {s : Shared} → Accounted i j s → Accounted j i s
  swap h = record {
    single = h.single;
    unique = h.unique;
    locked = omega (arith, h.locked);
    sent = omega (arith, h.sent);
    once = omega (arith, h.once);
    kept = h.kept;
  }

  pub add-Accounted :
      (r : OutboxRow) (s : Shared)
      → Accounted s.left_side s.right_side s
      → let s' = happen (adds r) s in Accounted s'.left_side s'.right_side s'
  unfolding happen count
  add-Accounted r s h = elim (Bool-cases (is_among s.table r || is_among s.taken r)) [
    | inl known ↦ rw known h
    | inr new ↦ elim (Bool-cases (r.event.id == e)) [
      | inl same ↦
          let absent : count e s.table + count e s.taken ≡ 0 =
            ground (arith, new, is_among-count e s.table r same, is_among-count e s.taken r same) in
          rw new (record {
            single = ground (arith, same, absent, h.kept);
            unique = ground (arith, same, absent, count-append e s.table (r ∷ []));
            locked = ground (arith, h.locked, count-append e s.table (r ∷ []));
            sent = h.sent;
            once = ground (arith, same, absent, count-append e s.table (r ∷ []));
            kept = ground (arith, same, h.kept, count-append e s.table (r ∷ []));
          })
      | inr differs ↦ rw new (record {
        single = ground (arith, differs, h.single);
        unique = ground (arith, differs, h.unique, count-append e s.table (r ∷ []));
        locked = ground (arith, differs, h.locked, count-append e s.table (r ∷ []));
        sent = h.sent;
        once = ground (arith, differs, h.once, count-append e s.table (r ∷ []));
        kept = ground (arith, differs, h.kept, count-append e s.table (r ∷ []));
      })
    ]
  ]

  module _ (s : Shared) (j : Instance) where
    pub begin-Accounted :
        Accounted waiting j s → Accounted (working (lock_batch j s.table) [] []) j s
    unfolding count
    begin-Accounted h = record {
      single = h.single;
      unique = h.unique;
      locked = ground (arith, h.locked, count-lock_batch e j s.table);
      sent = h.sent;
      once = h.once;
      kept = h.kept;
    }

    pub confirmed-Accounted :
        (r : OutboxRow) (todo done passed : List OutboxRow)
        → Accounted (working (r ∷ todo) done passed) j s
        → Accounted (working todo (r ∷ done) passed) j (record s { taken = r ∷ s.taken })
    unfolding count
    confirmed-Accounted r todo done passed h = record {
      single = h.single;
      unique = h.unique;
      locked = omega (arith, h.locked);
      sent = omega (arith, h.sent);
      once = omega (arith, h.once);
      kept = omega (arith, h.kept);
    }

    pub returned-Accounted :
        (r : OutboxRow) (todo done passed : List OutboxRow)
        → Accounted (working (r ∷ todo) done passed) j s
        → Accounted (working todo done (r ∷ passed)) j s
    unfolding count
    returned-Accounted r todo done passed h = record {
      single = h.single;
      unique = h.unique;
      locked = omega (arith, h.locked);
      sent = h.sent;
      once = h.once;
      kept = h.kept;
    }

    pub failed-Accounted :
        (todo done passed : List OutboxRow)
        → Accounted (working todo done passed) j s
        → Accounted (working [] done (todo ++ passed)) j s
    unfolding count
    failed-Accounted todo done passed h = record {
      single = h.single;
      unique = h.unique;
      locked = omega (arith, h.locked, count-append e todo passed);
      sent = h.sent;
      once = h.once;
      kept = h.kept;
    }

    pub failed_after-Accounted :
        (r : OutboxRow) (todo done passed : List OutboxRow)
        → Accounted (working (r ∷ todo) done passed) j s
        → Accounted
            (working [] done ((r ∷ todo) ++ passed))
            j
            (record s { taken = r ∷ s.taken; lost = r ∷ s.lost })
    unfolding count
    failed_after-Accounted r todo done passed h = record {
      single = h.single;
      unique = h.unique;
      locked = omega (arith, h.locked, count-append e todo passed);
      sent = omega (arith, h.sent);
      once = ground (arith, h.once);
      kept = omega (arith, h.kept);
    }

    pub commit-Accounted :
        (done passed : List OutboxRow)
        → Accounted (working [] done passed) j s
        → Accounted waiting j (record s { table = keep (λ r. not (is_among done r)) s.table })
    unfolding count
    commit-Accounted done passed h =
        let left_over =
          count-keep e (is_among done) (not (count e done == 0)) s.table (is_among-count e done) in
        record {
          single = h.single;
          unique = ground (arith, left_over, h.unique);
          locked = ground (arith, left_over, h.locked, h.unique);
          sent = omega (arith, h.sent);
          once = ground (arith, left_over, h.once, h.locked, h.unique);
          kept = ground (arith, left_over, h.kept, h.single, h.sent);
        }

    pub die-Accounted :
        (todo done passed : List OutboxRow)
        → Accounted (working todo done passed) j s
        → Accounted waiting j (record s { lost = done ++ s.lost })
    die-Accounted todo done passed h = record {
      single = h.single;
      unique = h.unique;
      locked = omega (arith, h.locked);
      sent = omega (arith, h.sent);
      once = omega (arith, h.once, count-append e done s.lost);
      kept = h.kept;
    }
