-- ===== src/Messaging/Publisher/Passes.antt =====
-- What the passes of the publisher do to the outbox.
use udesa_x_users_api.Common.{
  beq_ℕ_iff, ℕ, zero, suc, ◌≤◌, ◌<◌, ◌≡◌, refl, ap, Bool, true, false, not, ◌||◌, List, [], ◌∷◌,
  ◌++◌, ==_refl, nat_eq, take, keep, any, all, length, arith, Bool-cases, inl, inr,
}
use udesa_x_users_api.Model.Event.{OutboxRow}
use udesa_x_users_api.Messaging.Publisher.{
  Delivery, confirmed, undeliverable, batch_size, insert, by_creation, publish_rows, is_among,
  same_event, batch, publish_batch, is_last, drain,
}

abbrev pub is_undeliverable : (OutboxRow → Delivery) → OutboxRow → Bool
is_undeliverable broker row = elim (broker row) [ undeliverable ↦ true | _ ↦ false ]

abbrev pub is_confirmed : (OutboxRow → Delivery) → OutboxRow → Bool
is_confirmed broker row = elim (broker row) [ confirmed ↦ true | _ ↦ false ]

keep-all : (rows : List OutboxRow) → keep (λ r. not (is_among [] r)) rows ≡ rows
keep-all [] = refl
keep-all (r ∷ rows) = ap (λ l. r ∷ l) (keep-all rows)

publish_rows-undeliverable :
    (broker : OutboxRow → Delivery) (rows : List OutboxRow)
    → all (is_undeliverable broker) rows ≡ true
    → publish_rows broker rows ≡ record { published = []; interrupted = false }
unfolding publish_rows
publish_rows-undeliverable broker [] h = refl
publish_rows-undeliverable broker (r ∷ rows) h =
    ground (arith, publish_rows-undeliverable broker rows)

-- When the broker hands back every row of the first batch, `drain` stops after one pass that
-- published nothing and leaves the table as it was, whatever rows come after the batch.
pub drain-undeliverable :
    (broker : ℕ → OutboxRow → Delivery) (n fuel : ℕ) (outbox : List OutboxRow)
    → all (is_undeliverable (broker n)) (batch outbox) ≡ true
    → drain broker n (suc fuel) outbox ≡ record { sent = []; left = outbox; finished = true }
unfolding drain publish_batch
drain-undeliverable broker n fuel outbox h =
    ground (arith, publish_rows-undeliverable (broker n) (batch outbox) h, keep-all outbox)

module _ {ℓ} {A : Type ℓ} where
  any-take : (q : A → Bool) (n : ℕ) (xs : List A) → any q (take n xs) ≡ true → any q xs ≡ true
  any-take q zero xs h = ground arith
  any-take q (suc n) [] h = h
  any-take q (suc n) (x ∷ xs) h = ground (arith, any-take q n xs)

  length-keep : (q : A → Bool) (xs : List A) → length (keep q xs) ≤ length xs
  length-keep q [] = omega arith
  length-keep q (x ∷ xs) = ground (arith, length-keep q xs)

  length-keep-lt :
      (q : A → Bool) (xs : List A) → any (λ x. not (q x)) xs ≡ true → length (keep q xs) < length xs
  length-keep-lt q [] h = ground arith
  length-keep-lt q (x ∷ xs) h = ground (arith, length-keep q xs, length-keep-lt q xs)

  any-or :
      (q r : A → Bool) (xs : List A) → any q xs ≡ true → any (λ x. not (not (q x || r x))) xs ≡ true
  any-or q r [] h = h
  any-or q r (x ∷ xs) h = ground (arith, any-or q r xs)

  all-append :
      (q : A → Bool) (xs ys : List A) → all q xs ≡ true → all q ys ≡ true → all q (xs ++ ys) ≡ true
  all-append q [] ys h k = k
  all-append q (x ∷ xs) ys h k = ground (arith, all-append q xs ys)

any-insert :
    (q : OutboxRow → Bool) (r : OutboxRow) (rows : List OutboxRow)
    → any q (insert r rows) ≡ (q r || any q rows)
any-insert q r [] = refl
any-insert q r (s ∷ rows) = ground (arith, any-insert q r rows)

any-by_creation :
    (q : OutboxRow → Bool) (rows : List OutboxRow) → any q (by_creation rows) ≡ any q rows
any-by_creation q [] = refl
any-by_creation q (r ∷ rows) =
    ground (arith, any-insert q r (by_creation rows), any-by_creation q rows)

any-batch :
    (q : OutboxRow → Bool) (outbox : List OutboxRow)
    → any q (batch outbox) ≡ true
    → any q outbox ≡ true
unfolding batch
any-batch q outbox h =
    ground (arith, any-take q batch_size (by_creation outbox), any-by_creation q outbox)

published-among :
    (broker : OutboxRow → Delivery) (rows : List OutboxRow) (s : OutboxRow) (ss : List OutboxRow)
    → (publish_rows broker rows).published ≡ s ∷ ss
    → any (same_event s) rows ≡ true
unfolding publish_rows
published-among broker [] s ss h = ground arith
published-among broker (r ∷ rows) s ss h =
    ground (arith, published-among broker rows s ss, ==_refl s.event.id)

-- A pass that published anything deletes rows.
publish_batch-shrinks :
    (broker : OutboxRow → Delivery) (outbox : List OutboxRow) (s : OutboxRow) (ss : List OutboxRow)
    → (publish_rows broker (batch outbox)).published ≡ s ∷ ss
    → length (publish_batch broker outbox).1 < length outbox
unfolding publish_batch
publish_batch-shrinks broker outbox s ss h = rw h (
    length-keep-lt (λ r. not (is_among (s ∷ ss) r)) outbox
      (any-or (same_event s) (is_among ss) outbox
        (any-batch (same_event s) outbox (published-among broker (batch outbox) s ss h))))

not_last :
    (i : Bool) (rows : List OutboxRow)
    → is_last (record { published = rows; interrupted = i }) ≡ false
    → (s : OutboxRow) × (ss : List OutboxRow) × (rows ≡ s ∷ ss)
not_last false [] h = absurd (cc h)
not_last true [] h = absurd (cc h)
not_last i (s ∷ ss) h = (s, ss, refl)

-- A pass that is not the last one deletes rows.
not_last-shrinks :
    (broker : OutboxRow → Delivery) (outbox : List OutboxRow)
    → is_last (publish_batch broker outbox).0 ≡ false
    → length (publish_batch broker outbox).1 < length outbox
unfolding publish_batch
not_last-shrinks broker outbox h =
    let pass = publish_rows broker (batch outbox) in
    let (s, ss, e) = not_last pass.interrupted pass.published h in
    publish_batch-shrinks broker outbox s ss e

-- A drain ends within as many passes as the table has rows, and one more, whatever the broker answers
-- in each.
pub drain-finishes :
    (broker : ℕ → OutboxRow → Delivery) (n fuel : ℕ) (outbox : List OutboxRow)
    → length outbox < fuel
    → (drain broker n fuel outbox).finished ≡ true
unfolding drain
drain-finishes broker n zero outbox h = ground arith
drain-finishes broker n (suc fuel) outbox h =
    elim (Bool-cases (is_last (publish_batch (broker n) outbox).0)) [
      | inl last ↦ rw last refl
      | inr more ↦ rw more (
          drain-finishes broker (suc n) fuel (publish_batch (broker n) outbox).1
            (omega (arith, h, not_last-shrinks (broker n) outbox more)))
    ]

published-confirmed :
    (q : OutboxRow → Bool) (broker : OutboxRow → Delivery) (rows : List OutboxRow)
    → ((r : OutboxRow) → broker r ≡ confirmed → q r ≡ true)
    → all q (publish_rows broker rows).published ≡ true
unfolding publish_rows
published-confirmed q broker [] h = refl
published-confirmed q broker (r ∷ rows) h = ground (arith, h r, published-confirmed q broker rows h)

is_among-same :
    (r s : OutboxRow) (gone : List OutboxRow)
    → same_event r s ≡ true
    → is_among gone s ≡ is_among gone r
is_among-same r s [] h = refl
is_among-same r s (x ∷ gone) h =
    ground (arith, beq_ℕ_iff r.event.id s.event.id, is_among-same r s gone h)

is_among-append :
    (r : OutboxRow) (xs ys : List OutboxRow)
    → is_among (xs ++ ys) r ≡ (is_among xs r || is_among ys r)
is_among-append r [] ys = refl
is_among-append r (x ∷ xs) ys = ground (arith, is_among-append r xs ys)

kept-or_among :
    (r : OutboxRow) (gone : List OutboxRow) (rows : List OutboxRow)
    → any (same_event r) rows ≡ true
    → (is_among gone r || any (same_event r) (keep (λ s. not (is_among gone s)) rows)) ≡ true
kept-or_among r gone [] h = ground arith
kept-or_among r gone (s ∷ rows) h =
    ground (arith, is_among-same r s gone, kept-or_among r gone rows)

sent-append :
    (r : OutboxRow) (xs ys : List OutboxRow) (kept left : Bool)
    → (is_among xs r || kept) ≡ true
    → (kept ≡ true → (is_among ys r || left) ≡ true)
    → (is_among (xs ++ ys) r || left) ≡ true
sent-append r xs ys kept left now later = ground (arith, is_among-append r xs ys)

drain-confirmed :
    (broker : ℕ → OutboxRow → Delivery) (n fuel : ℕ) (outbox : List OutboxRow)
    (q : OutboxRow → Bool)
    → ((m : ℕ) (s : OutboxRow) → broker m s ≡ confirmed → q s ≡ true)
    → all q (drain broker n fuel outbox).sent ≡ true
unfolding drain publish_batch
drain-confirmed broker n zero outbox q h = refl
drain-confirmed broker n (suc fuel) outbox q h =
    let (pass, left) = publish_batch (broker n) outbox in
    let now = published-confirmed q (broker n) (batch outbox) (h n) in
    elim (Bool-cases (is_last pass)) [
      | inl last ↦ rw last now
      | inr more ↦ rw more (
          all-append q pass.published (drain broker (suc n) fuel left).sent now
            (drain-confirmed broker (suc n) fuel left q h))
    ]

drain-keeps :
    (broker : ℕ → OutboxRow → Delivery) (n fuel : ℕ) (outbox : List OutboxRow) (r : OutboxRow)
    → any (same_event r) outbox ≡ true
    → (is_among (drain broker n fuel outbox).sent r
        || any (same_event r) (drain broker n fuel outbox).left)
      ≡ true
unfolding drain publish_batch
drain-keeps broker n zero outbox r there = there
drain-keeps broker n (suc fuel) outbox r there =
    let (pass, left) = publish_batch (broker n) outbox in
    let rest = drain broker (suc n) fuel left in
    let now = kept-or_among r pass.published outbox there in
    elim (Bool-cases (is_last pass)) [
      | inl last ↦ rw last now
      | inr more ↦ rw more (
          sent-append r pass.published rest.sent (any (same_event r) left)
            (any (same_event r) rest.left) now (drain-keeps broker (suc n) fuel left r))
    ]

-- Nothing is lost and nothing leaves unconfirmed: after a drain, however many passes it made, each
-- event of the table was sent or is still there, and the broker confirmed every event that was sent.
pub drain-conserves :
    (broker : ℕ → OutboxRow → Delivery) (n fuel : ℕ) (outbox : List OutboxRow)
    (q : OutboxRow → Bool) (r : OutboxRow)
    → ((m : ℕ) (s : OutboxRow) → broker m s ≡ confirmed → q s ≡ true)
    → any (same_event r) outbox ≡ true
    → let d = drain broker n fuel outbox in
      (all q d.sent ≡ true) × ((is_among d.sent r || any (same_event r) d.left) ≡ true)
drain-conserves broker n fuel outbox q r h there =
    (drain-confirmed broker n fuel outbox q h, drain-keeps broker n fuel outbox r there)
