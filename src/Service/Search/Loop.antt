-- ===== src/Service/Search/Loop.antt =====
-- The loop of the public search finds the first visible accounts.
use mathlib.Core.List.{append-nil, append_assoc}
use udesa_x_users_api.Common.{
  ℕ, zero, suc, ◌≤◌, ◌<◌, ◌≡◌, refl, ap, sym, ◌∙◌, inl, inr, Bool, true, false, not, Option, some,
  List, [], ◌∷◌, ◌++◌, map, Text, ◌==◌, nat_eq, ltb, keep, take, drop, length, take-append-drop,
  length-take, arith, Bool-cases,
}
use udesa_x_users_api.Model.Account.{User}
use udesa_x_users_api.Platform.{Platform}
use udesa_x_users_api.World.State.{World}
use udesa_x_users_api.World.Exec.{Action, ok}
use udesa_x_users_api.Store.Searches.{
  Cursor, past, newest_first, last_position, matches_public, search_batch_size,
  search_public_accounts,
}
use udesa_x_users_api.Store.Searches.Order.{IdsApart}
use udesa_x_users_api.Store.Searches.Pages.{
  selected-rest, rest_of-last, length-drop, take-whole, last_position-take, ltb→lt, ltb→le,
}
use udesa_x_users_api.Service.Search.{is_excluded, first_page, look_at, collect}

-- The blocks are available, and leave out of each batch the accounts that `hidden` says.
abbrev pub Answers : (List ℕ → Option (List ℕ)) → (User → Bool) → Type 0
Answers blocks hidden =
    (candidates : List User)
    → (ids : List ℕ) × (blocks (map (λ u. u.id) candidates) ≡ some ids)
      × (keep (λ u. not (is_excluded ids u)) candidates ≡ keep (λ u. not (hidden u)) candidates)

keep-append : (q : User → Bool) (xs ys : List User) → keep q (xs ++ ys) ≡ keep q xs ++ keep q ys
keep-append q [] ys = refl
keep-append q (x ∷ xs) ys = ground (arith, keep-append q xs ys)

take-append : (n : ℕ) (xs ys : List User) → n ≤ length xs → take n (xs ++ ys) ≡ take n xs
take-append zero xs ys h = refl
take-append (suc n) [] ys h = absurd (omega (arith, h))
take-append (suc n) (x ∷ xs) ys h = ap (λ l. x ∷ l) (take-append n xs ys (omega (arith, h)))

length-append_le : (xs ys : List User) → length xs ≤ length (xs ++ ys)
length-append_le [] ys = omega arith
length-append_le (x ∷ xs) ys = omega (arith, length-append_le xs ys)

gt→ltb : (n m : ℕ) → n < m → ltb n m ≡ true
gt→ltb n m h = ground arith

ltb→ge : (n m : ℕ) → not (ltb n m) ≡ true → m ≤ n
ltb→ge n m h = ground arith

not_zero : (n : ℕ) → (suc n == 0) ≡ false
not_zero n = ground arith

first_page-append :
    (visible more : List User)
    → 21 ≤ length visible
    → first_page (visible ++ more) ≡ first_page visible
first_page-append visible more h =
    rw
      (
        take-append 20 visible more (omega (arith, h)),
        gt→ltb 20 (length visible) (omega (arith, h)),
        gt→ltb 20 (length (visible ++ more)) (omega (arith, h, length-append_le visible more)),
      )
      refl

-- The accounts that are not hidden.
abbrev pub shown : (User → Bool) → List User → List User
shown hidden rows = keep (λ u. not (hidden u)) rows

module _ ⦃p : Platform⦄ where
  -- The accounts that match past a cursor, newest first.
  abbrev pub left : Text → Bool → World → Option Cursor → List User
  left fragment handle_only w cursor =
      keep (past cursor) (newest_first (keep (matches_public handle_only fragment) w.db.users))

module _ ⦃p : Platform⦄ (blocks : List ℕ → Option (List ℕ)) (hidden : User → Bool)
    (answers : Answers blocks hidden) where
  look_at-last :
      (go : Option Cursor → List User → Action (List User)) (visible candidates : List User)
      (w : World)
      → ltb (length candidates) search_batch_size ≡ true
      → look_at blocks go visible candidates w ≡ (ok (visible ++ shown hidden candidates), w)
  unfolding look_at
  look_at-last go visible [] w short = rw (append-nil visible) refl
  look_at-last go visible (u ∷ rows) w short =
      let (ids, answered, kept) = answers (u ∷ rows) in
      rw (not_zero (length rows), answered, short) (ap (λ l. (ok (visible ++ l), w)) kept)

  look_at-more :
      (go : Option Cursor → List User → Action (List User)) (visible candidates : List User)
      (w : World)
      → ltb (length candidates) search_batch_size ≡ false
      → look_at blocks go visible candidates w
        ≡ go (last_position candidates) (visible ++ shown hidden candidates) w
  unfolding look_at
  look_at-more go visible [] w long = absurd (ground (arith, long))
  look_at-more go visible (u ∷ rows) w long =
      let (ids, answered, kept) = answers (u ∷ rows) in
      rw (not_zero (length rows), answered, long)
        (ap (λ l. go (last_position (u ∷ rows)) (visible ++ l) w) kept)

  module _ (fragment : Text) (handle_only : Bool) (w : World) (apart : IdsApart w.db.users) where
    step :
        (fuel : ℕ) (cursor : Option Cursor) (visible : List User)
        → not (ltb (length visible) 21) ≡ false
        → collect blocks fragment handle_only (suc fuel) cursor visible w
          ≡ look_at blocks
              (collect blocks fragment handle_only fuel)
              visible
              (take search_batch_size (left fragment handle_only w cursor))
              w
    unfolding collect search_public_accounts
    step fuel cursor visible few = rw few (
        ap
          (λ rows.
            look_at blocks (collect blocks fragment handle_only fuel) visible
              (take search_batch_size rows) w)
          (selected-rest (matches_public handle_only fragment) 49 w.db.users apart cursor))

    joined :
        (cursor : Option Cursor) (c : Cursor)
        → last_position (take 50 (left fragment handle_only w cursor)) ≡ some c
        → shown hidden (take 50 (left fragment handle_only w cursor))
            ++ shown hidden (left fragment handle_only w (some c))
          ≡ shown hidden (left fragment handle_only w cursor)
    joined cursor c e =
        ap
          (λ rows. shown hidden (take 50 (left fragment handle_only w cursor)) ++ shown hidden rows)
          (rest_of-last (matches_public handle_only fragment) 49 w.db.users apart cursor c e)
        ∙ sym (
            keep-append (λ u. not (hidden u)) (take 50 (left fragment handle_only w cursor))
              (drop 50 (left fragment handle_only w cursor)))
        ∙ ap (shown hidden) (take-append-drop 50 (left fragment handle_only w cursor))

    whole_batch :
        (cursor : Option Cursor)
        → ltb (length (take 50 (left fragment handle_only w cursor))) 50 ≡ true
        → take 50 (left fragment handle_only w cursor) ≡ left fragment handle_only w cursor
    whole_batch cursor short = take-whole 50 (left fragment handle_only w cursor) (
        omega (
          arith,
          ltb→lt (length (take 50 (left fragment handle_only w cursor))) 50 short,
          length-take 50 (left fragment handle_only w cursor),
        ))

    full_batch :
        (cursor : Option Cursor)
        → ltb (length (take 50 (left fragment handle_only w cursor))) 50 ≡ false
        → 50 ≤ length (left fragment handle_only w cursor)
    full_batch cursor long = omega (
      arith,
      ltb→le (length (take 50 (left fragment handle_only w cursor))) 50 long,
      length-take 50 (left fragment handle_only w cursor),
    )

    abbrev Found : ℕ → Option Cursor → List User → Type 0
    Found fuel cursor visible =
        (v : List User) × (collect blocks fragment handle_only fuel cursor visible w ≡ (ok v, w))
        × (first_page v ≡ first_page (visible ++ shown hidden (left fragment handle_only w cursor)))

    -- After a full batch the loop goes on from its last account.
    goes_on :
        (fuel : ℕ) (cursor : Option Cursor) (visible : List User) (c : Cursor)
        → not (ltb (length visible) 21) ≡ false
        → ltb (length (take 50 (left fragment handle_only w cursor))) 50 ≡ false
        → last_position (take 50 (left fragment handle_only w cursor)) ≡ some c
        → Found fuel
            (some c)
            (visible ++ shown hidden (take 50 (left fragment handle_only w cursor)))
        → Found (suc fuel) cursor visible
    goes_on fuel cursor visible c few long last (v, ends, page) = (
      v,
      step fuel cursor visible few
          ∙ look_at-more (collect blocks fragment handle_only fuel) visible
              (take 50 (left fragment handle_only w cursor)) w long
          ∙ ap
              (λ o.
                collect blocks fragment handle_only fuel o
                  (visible ++ shown hidden (take 50 (left fragment handle_only w cursor))) w)
              last
          ∙ ends,
      page
          ∙ ap first_page (
              append_assoc visible (shown hidden (take 50 (left fragment handle_only w cursor)))
                (shown hidden (left fragment handle_only w (some c)))
              ∙ ap (λ l. visible ++ l) (joined cursor c last)),
    )

    -- With the blocks available, the loop of the public search ends within as many batches as there are
    -- matching accounts past the cursor, and one more; and the page made from what it collected is the
    -- page made from all the accounts that match past the cursor and are not hidden, newest first.
    pub collect-finds :
        (fuel : ℕ) (cursor : Option Cursor) (visible : List User)
        → length (left fragment handle_only w cursor) < fuel
        → (v : List User) × (collect blocks fragment handle_only fuel cursor visible w ≡ (ok v, w))
          × (first_page v
              ≡ first_page (visible ++ shown hidden (left fragment handle_only w cursor)))
    unfolding collect
    collect-finds zero cursor visible enough = absurd (omega (arith, enough))
    collect-finds (suc fuel) cursor visible enough =
        elim (Bool-cases (not (ltb (length visible) 21))) [
          | inl full ↦ (
            visible,
            rw full refl,
            sym (
                first_page-append visible (shown hidden (left fragment handle_only w cursor))
                  (ltb→ge (length visible) 21 full)),
          )
          | inr few ↦
              elim (Bool-cases (ltb (length (take 50 (left fragment handle_only w cursor))) 50)) [
                | inl short ↦ (
                  visible ++ shown hidden (take 50 (left fragment handle_only w cursor)),
                  step fuel cursor visible few
                      ∙ look_at-last (collect blocks fragment handle_only fuel) visible
                          (take 50 (left fragment handle_only w cursor)) w short,
                  ap (λ l. first_page (visible ++ shown hidden l)) (whole_batch cursor short),
                )
                | inr long ↦
                    let (c, last) =
                      last_position-take 49 (left fragment handle_only w cursor)
                        (omega (arith, full_batch cursor long)) in
                    goes_on fuel cursor visible c few long last (
                      collect-finds fuel (some c)
                        (visible ++ shown hidden (take 50 (left fragment handle_only w cursor)))
                        (omega (
                          arith,
                          enough,
                          full_batch cursor long,
                          length-drop 50 (left fragment handle_only w cursor)
                              (full_batch cursor long),
                          ap length (
                              rest_of-last (matches_public handle_only fragment) 49 w.db.users apart
                                cursor c last),
                        )))
              ]
        ]
