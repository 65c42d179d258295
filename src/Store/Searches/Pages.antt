-- ===== src/Store/Searches/Pages.antt =====
-- Following the cursors of a search from page to page shows every row once, in order.
use udesa_x_users_api.Common.{
  ℕ, zero, suc, ◌+◌, ◌≤◌, ◌<◌, ◌≡◌, refl, ap, sym, ◌∙◌, inl, inr, Bool, true, false, Option, none,
  some, List, [], ◌∷◌, ◌++◌, nat_eq, ltb, keep, take, drop, length, take-append-drop, length-take,
  arith, Bool-cases,
}
use udesa_x_users_api.Model.Account.{User}
use udesa_x_users_api.Store.Searches.{
  Cursor, position, is_before, past, newest_first, last_position, selected, page_of,
}
use udesa_x_users_api.Store.Searches.Order.{
  IdsApart, Descending, is_before_trans, newest_first-Descending, keep-Descending,
  keep-newest_first, keep-and, keep-nested, IdsApart-keep, all-keep_self, all-take,
  last_position-row, keep-last_position,
}

-- A page, followed by what the client gets with its cursor.
abbrev pub show_page : (Cursor → List User) → List User × Option Cursor → List User
show_page rest (page, none) = page
show_page rest (page, some c) = page ++ rest c

-- The rows that a client sees that asks for the first page and follows the cursors, page by page.
abbrev pub follow : (User → Bool) → ℕ → ℕ → Option Cursor → List User → List User
follow matches limit zero cursor users = []
follow matches limit (suc fuel) cursor users =
    show_page (λ c. follow matches limit fuel (some c) users)
      (page_of limit (take (suc limit) (selected matches cursor users)))

take-take : (n : ℕ) (users : List User) → take n (take (suc n) users) ≡ take n users
take-take zero users = refl
take-take (suc n) [] = refl
take-take (suc n) (u ∷ users) = ap (λ rows. u ∷ rows) (take-take n users)

pub take-whole : (n : ℕ) (users : List User) → length users ≤ n → take n users ≡ users
take-whole zero [] h = refl
take-whole zero (u ∷ users) h = absurd (omega arith)
take-whole (suc n) [] h = refl
take-whole (suc n) (u ∷ users) h = ap (λ rows. u ∷ rows) (take-whole n users (omega arith))

pub length-drop :
    (n : ℕ) (users : List User) → n ≤ length users → length (drop n users) + n ≡ length users
length-drop zero users h = omega arith
length-drop (suc n) [] h = omega (arith, h)
length-drop (suc n) (u ∷ users) h = omega (arith, length-drop n users (omega (arith, h)))

last_position-some :
    (u : User) (users : List User) → (c : Cursor) × (last_position (u ∷ users) ≡ some c)
last_position-some u [] = (position u, refl)
last_position-some u (v ∷ users) = last_position-some v users

pub last_position-take :
    (k : ℕ) (rows : List User)
    → 0 < length rows
    → (c : Cursor) × (last_position (take (suc k) rows) ≡ some c)
last_position-take k [] h = absurd (omega (arith, h))
last_position-take k (u ∷ rows) h = last_position-some u (take k rows)

keep-none : (rows : List User) → keep (past none) rows ≡ rows
keep-none [] = refl
keep-none (u ∷ rows) = ap (λ l. u ∷ l) (keep-none rows)

pub ltb→lt : (a b : ℕ) → ltb a b ≡ true → a < b
ltb→lt a b h = ground arith

pub ltb→le : (a b : ℕ) → ltb a b ≡ false → b ≤ a
ltb→le a b h = ground arith

-- A page and what comes with its cursor are the rows, when the cursor brings what the page left.
show_page-whole :
    (rest : Cursor → List User) (k : ℕ) (rows : List User)
    → ((c : Cursor)
        → last_position (take (suc k) rows) ≡ some c
        → suc k < length rows
        → rest c ≡ drop (suc k) rows)
    → show_page rest (page_of (suc k) (take (suc (suc k)) rows)) ≡ rows
show_page-whole rest k rows brings =
    rw (take-take (suc k) rows)
      (elim (Bool-cases (ltb (suc k) (length (take (suc (suc k)) rows)))) [
        | inl more ↦
            let long : suc k < length rows = omega (
              arith,
              ltb→lt (suc k) (length (take (suc (suc k)) rows)) more,
              length-take (suc (suc k)) rows,
            ) in
            let (c, e) = last_position-take k rows (omega (arith, long)) in
            rw (more, e)
              (ap (λ l. take (suc k) rows ++ l) (brings c e long) ∙ take-append-drop (suc k) rows)
        | inr last ↦ rw last (
            take-whole (suc k) rows (
              omega (
                arith,
                ltb→le (suc k) (length (take (suc (suc k)) rows)) last,
                length-take (suc (suc k)) rows,
              )))
      ])

module _ (matches : User → Bool) (k : ℕ) (users : List User) (apart : IdsApart users) where
  abbrev whole : List User
  whole = selected matches none users

  abbrev pub rest_of : Option Cursor → List User
  rest_of cursor = keep (past cursor) (newest_first (keep matches users))

  pub selected-rest : (cursor : Option Cursor) → selected matches cursor users ≡ rest_of cursor
  selected-rest cursor =
      ap newest_first (keep-and matches (past cursor) users)
      ∙ sym
          (keep-newest_first (past cursor) (keep matches users) (IdsApart-keep matches users apart))

  rest-Descending : (cursor : Option Cursor) → Descending (rest_of cursor)
  rest-Descending cursor =
      keep-Descending (past cursor) (newest_first (keep matches users))
        (newest_first-Descending (keep matches users) (IdsApart-keep matches users apart))

  past-last :
      (cursor : Option Cursor) (c : Cursor)
      → last_position (take (suc k) (rest_of cursor)) ≡ some c
      → (u : User) → is_before c u ≡ true
      → past cursor u ≡ true
  past-last none c e u h = refl
  past-last (some d) c e u h =
      let (v, inside, at) =
        last_position-row (past (some d)) (take (suc k) (rest_of (some d))) c
          (all-take (past (some d)) (suc k) (rest_of (some d))
            (all-keep_self (past (some d)) (newest_first (keep matches users))))
          e in
      is_before_trans d v u inside (ap (λ x. is_before x u) at ∙ h)

  pub rest_of-last :
      (cursor : Option Cursor) (c : Cursor)
      → last_position (take (suc k) (rest_of cursor)) ≡ some c
      → rest_of (some c) ≡ drop (suc k) (rest_of cursor)
  rest_of-last cursor c e =
      sym (
        keep-nested (is_before c) (past cursor) (newest_first (keep matches users))
          (past-last cursor c e))
      ∙ keep-last_position k (rest_of cursor) c (rest-Descending cursor) e

  follow-rest :
      (fuel : ℕ) (cursor : Option Cursor)
      → length (rest_of cursor) < fuel
      → follow matches (suc k) fuel cursor users ≡ rest_of cursor
  follow-rest zero cursor h = absurd (omega (arith, h))
  follow-rest (suc fuel) cursor h =
      ap
        (λ rows.
          show_page (λ c. follow matches (suc k) fuel (some c) users)
            (page_of (suc k) (take (suc (suc k)) rows)))
        (selected-rest cursor)
      ∙ show_page-whole (λ c. follow matches (suc k) fuel (some c) users) k (rest_of cursor)
          (λ c e more.
            follow-rest fuel (some c) (
              omega (
                arith,
                h,
                more,
                ap length (rest_of-last cursor c e),
                length-drop (suc k) (rest_of cursor) (omega (arith, more)),
              ))
            ∙ rest_of-last cursor c e)

  -- Following the cursors of a search in pages of one row or more, the table unchanged meanwhile, ends
  -- within as many pages as there are matching accounts, and one more, and shows the whole result of the
  -- search: every matching row once, newest first.
  pub follow-whole :
      (fuel : ℕ)
      → length (newest_first (keep matches users)) < fuel
      → follow matches (suc k) fuel none users ≡ newest_first (keep matches users)
  follow-whole fuel h =
      follow-rest fuel none (rw (keep-none (newest_first (keep matches users))) h)
      ∙ keep-none (newest_first (keep matches users))
