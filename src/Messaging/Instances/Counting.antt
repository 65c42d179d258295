-- ===== src/Messaging/Instances/Counting.antt =====
-- How many rows of an event the table, the instances and the broker have.
use udesa_x_users_api.Common.{
  ℕ, zero, suc, ◌+◌, ◌≤◌, ◌≡◌, refl, Bool, true, not, List, [], ◌∷◌, ◌++◌, ◌==◌, nat_eq, beq_ℕ_iff,
  take, keep, arith, Bool-cases, inl, inr, if◌then◌else◌,
}
use udesa_x_users_api.Model.Event.{OutboxRow}
use udesa_x_users_api.Messaging.Publisher.{is_among, insert, by_creation, batch, batch_size}
use udesa_x_users_api.Messaging.Instances.{Instance, waiting, working, is_held, lock_batch}

-- How many rows of the list have the id.
unfoldable pub count : ℕ → List OutboxRow → ℕ
count e [] = 0
count e (r ∷ rows) = (if r.event.id == e then 1 else 0) + count e rows

module _ (e : ℕ) where
  pub count-append : (xs ys : List OutboxRow) → count e (xs ++ ys) ≡ count e xs + count e ys
  unfolding count
  count-append [] ys = omega arith
  count-append (x ∷ xs) ys = omega (arith, count-append xs ys)

  count-insert :
      (r : OutboxRow) (rows : List OutboxRow) → count e (insert r rows) ≡ count e (r ∷ rows)
  unfolding count
  count-insert r [] = refl
  count-insert r (s ∷ rows) = ground (arith, count-insert r rows)

  count-by_creation : (rows : List OutboxRow) → count e (by_creation rows) ≡ count e rows
  unfolding count
  count-by_creation [] = refl
  count-by_creation (r ∷ rows) =
      ground (arith, count-insert r (by_creation rows), count-by_creation rows)

  count-take : (n : ℕ) (rows : List OutboxRow) → count e (take n rows) ≤ count e rows
  unfolding count
  count-take zero rows = omega arith
  count-take (suc n) [] = omega arith
  count-take (suc n) (r ∷ rows) = omega (arith, count-take n rows)

  -- A row of that id is among others exactly where they have the id.
  pub is_among-count :
      (rows : List OutboxRow) (r : OutboxRow)
      → (r.event.id == e) ≡ true
      → is_among rows r ≡ not (count e rows == 0)
  unfolding count
  is_among-count [] r same = refl
  is_among-count (s ∷ rows) r same =
      ground (arith, beq_ℕ_iff r.event.id e, beq_ℕ_iff s.event.id e, is_among-count rows r same)

  abbrev pub held : Instance → ℕ
  held waiting = 0
  held (working todo done passed) = count e todo + count e done + count e passed

  abbrev pub published : Instance → ℕ
  published waiting = 0
  published (working todo done passed) = count e done

  is_held-held :
      (i : Instance) (r : OutboxRow) → (r.event.id == e) ≡ true → is_held i r ≡ not (held i == 0)
  is_held-held waiting r same = refl
  is_held-held (working todo done passed) r same =
      ground (
        arith,
        is_among-count todo r same,
        is_among-count done r same,
        is_among-count passed r same,
      )

  pub count-keep :
      (q : OutboxRow → Bool) (out : Bool) (rows : List OutboxRow)
      → ((r : OutboxRow) → (r.event.id == e) ≡ true → q r ≡ out)
      → count e (keep (λ r. not (q r)) rows) ≡ (if out then 0 else count e rows)
  unfolding count
  count-keep q out [] all_so = ground arith
  count-keep q out (r ∷ rows) all_so = elim (Bool-cases (r.event.id == e)) [
    | inl same ↦ ground (arith, all_so r same, count-keep q out rows all_so)
    | inr differs ↦ ground (arith, differs, count-keep q out rows all_so)
  ]

  pub count-lock_batch :
      (other : Instance) (table : List OutboxRow)
      → count e (lock_batch other table) ≤ (if not (held other == 0) then 0 else count e table)
  unfolding lock_batch batch
  count-lock_batch other table =
      let free = keep (λ r. not (is_held other r)) table in
      rw (← count-keep (is_held other) (not (held other == 0)) table (is_held-held other))
        (rw (← count-by_creation free) (count-take batch_size (by_creation free)))

  pub published-held : (i : Instance) → published i ≤ held i
  published-held waiting = omega arith
  published-held (working todo done passed) = omega arith
