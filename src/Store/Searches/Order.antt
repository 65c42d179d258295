-- ===== src/Store/Searches/Order.antt =====
-- Rows ordered newest first, and the part of them past a row.
use udesa_x_users_api.Common.{
  ℕ, zero, suc, ◌≡◌, refl, ap, sym, ◌∙◌, inl, inr, Bool, true, false, not, ◌&&◌, some, List, [],
  ◌∷◌, ◌==◌, nat_eq, all, keep, take, drop, arith, Bool-cases, if◌then◌else◌,
}
use udesa_x_users_api.Model.Account.{User}
use udesa_x_users_api.Store.Searches.{
  Cursor, position, is_before, insert_row, newest_first, last_position,
}

abbrev pub other_id : User → User → Bool
other_id u v = not (v.id == u.id)

-- No two rows share an id.
abbrev pub IdsApart : List User → Type 0
IdsApart [] = Unit
IdsApart (u ∷ users) = (all (other_id u) users ≡ true) × IdsApart users

-- Each row comes before every later one.
abbrev pub Descending : List User → Type 0
Descending [] = Unit
Descending (u ∷ users) = (all (is_before (position u)) users ≡ true) × Descending users

pub is_before_trans :
    (c : Cursor) (u v : User)
    → is_before c u ≡ true
    → is_before (position u) v ≡ true
    → is_before c v ≡ true
is_before_trans c u v h k = ground arith

pub is_before_asym :
    (u v : User) → is_before (position u) v ≡ true → is_before (position v) u ≡ false
is_before_asym u v h = ground arith

pub is_before_total :
    (u v : User)
    → is_before (position v) u ≡ false
    → other_id u v ≡ true
    → is_before (position u) v ≡ true
is_before_total u v h k = ground arith

pub all-before :
    (c : Cursor) (u : User) (users : List User)
    → is_before c u ≡ true
    → all (is_before (position u)) users ≡ true
    → all (is_before c) users ≡ true
all-before c u [] h k = refl
all-before c u (v ∷ users) h k = ground (arith, is_before_trans c u v h, all-before c u users h)

pub all-insert_row :
    (q : User → Bool) (u : User) (users : List User)
    → all q (insert_row u users) ≡ (q u && all q users)
all-insert_row q u [] = refl
all-insert_row q u (v ∷ users) = ground (arith, all-insert_row q u users)

pub all-newest_first :
    (q : User → Bool) (users : List User) → all q (newest_first users) ≡ all q users
all-newest_first q [] = refl
all-newest_first q (u ∷ users) =
    ground (arith, all-insert_row q u (newest_first users), all-newest_first q users)

pub insert_row-Descending :
    (u : User) (users : List User)
    → all (other_id u) users ≡ true
    → Descending users
    → Descending (insert_row u users)
insert_row-Descending u [] apart h = (refl, tt)
insert_row-Descending u (v ∷ users) apart h = elim (Bool-cases (is_before (position v) u)) [
  | inl later ↦ rw later (
    ground (arith, later, all-insert_row (is_before (position v)) u users),
    insert_row-Descending u users (ground arith) h.1,
  )
  | inr sooner ↦
      rw sooner (ground (arith, is_before_total u v sooner, all-before (position u) v users), h)
]

pub newest_first-Descending : (users : List User) → IdsApart users → Descending (newest_first users)
newest_first-Descending [] apart = tt
newest_first-Descending (u ∷ users) apart =
    insert_row-Descending u (newest_first users) (all-newest_first (other_id u) users ∙ apart.0)
      (newest_first-Descending users apart.1)

pub all-keep :
    (p q : User → Bool) (users : List User) → all p users ≡ true → all p (keep q users) ≡ true
all-keep p q [] h = refl
all-keep p q (u ∷ users) h = ground (arith, all-keep p q users)

pub keep-Descending :
    (q : User → Bool) (users : List User) → Descending users → Descending (keep q users)
keep-Descending q [] h = tt
keep-Descending q (u ∷ users) h = elim (Bool-cases (q u)) [
  | inl kept ↦ rw kept (all-keep (is_before (position u)) q users h.0, keep-Descending q users h.1)
  | inr dropped ↦ rw dropped (keep-Descending q users h.1)
]

pub insert_row-first :
    (u : User) (users : List User)
    → all (is_before (position u)) users ≡ true
    → insert_row u users ≡ u ∷ users
insert_row-first u [] h = refl
insert_row-first u (v ∷ users) h = ground (arith, is_before_asym u v)

pub keep-insert_row :
    (q : User → Bool) (u : User) (users : List User)
    → all (other_id u) users ≡ true
    → Descending users
    → keep q (insert_row u users) ≡ (if q u then insert_row u (keep q users) else keep q users)
keep-insert_row q u [] apart h = ground arith
keep-insert_row q u (v ∷ users) apart h = elim (Bool-cases (is_before (position v) u)) [
  | inl later ↦ ground (arith, later, keep-insert_row q u users (ground arith) h.1)
  | inr sooner ↦ rw sooner (
      ap (λ rows. if q u then rows else keep q (v ∷ users))
        (sym (
          insert_row-first u (keep q (v ∷ users)) (
            all-keep (is_before (position u)) q (v ∷ users)
              (ground (arith, is_before_total u v sooner, all-before (position u) v users))))))
]

-- The rows kept of an ordered table are the kept rows, ordered.
pub keep-newest_first :
    (q : User → Bool) (users : List User)
    → IdsApart users
    → keep q (newest_first users) ≡ newest_first (keep q users)
keep-newest_first q [] apart = refl
keep-newest_first q (u ∷ users) apart = ground (
  arith,
  keep-insert_row q u (newest_first users) (all-newest_first (other_id u) users ∙ apart.0)
      (newest_first-Descending users apart.1),
  keep-newest_first q users apart.1,
)

pub keep-and :
    (q r : User → Bool) (users : List User) → keep (λ u. q u && r u) users ≡ keep r (keep q users)
keep-and q r [] = refl
keep-and q r (u ∷ users) = ground (arith, keep-and q r users)

pub keep-nested :
    (q r : User → Bool) (users : List User)
    → ((u : User) → q u ≡ true → r u ≡ true)
    → keep q (keep r users) ≡ keep q users
keep-nested q r [] h = refl
keep-nested q r (u ∷ users) h = ground (arith, h u, keep-nested q r users h)

pub keep-all : (q : User → Bool) (users : List User) → all q users ≡ true → keep q users ≡ users
keep-all q [] h = refl
keep-all q (u ∷ users) h = ground (arith, keep-all q users)

pub IdsApart-keep : (q : User → Bool) (users : List User) → IdsApart users → IdsApart (keep q users)
IdsApart-keep q [] h = tt
IdsApart-keep q (u ∷ users) h = elim (Bool-cases (q u)) [
  | inl kept ↦ rw kept (all-keep (other_id u) q users h.0, IdsApart-keep q users h.1)
  | inr dropped ↦ rw dropped (IdsApart-keep q users h.1)
]

pub all-keep_self : (q : User → Bool) (users : List User) → all q (keep q users) ≡ true
all-keep_self q [] = refl
all-keep_self q (u ∷ users) = ground (arith, all-keep_self q users)

pub all-take :
    (q : User → Bool) (n : ℕ) (users : List User) → all q users ≡ true → all q (take n users) ≡ true
all-take q zero users h = refl
all-take q (suc n) [] h = refl
all-take q (suc n) (u ∷ users) h = ground (arith, all-take q n users)

-- The position of the last row of a page is that of a row which passes what all its rows pass.
pub last_position-row :
    (q : User → Bool) (users : List User) (c : Cursor)
    → all q users ≡ true
    → last_position users ≡ some c
    → (v : User) × (q v ≡ true) × (position v ≡ c)
last_position-row q [] c h e = absurd (cc e)
last_position-row q (u ∷ []) c h e = (u, ground arith, ground arith)
last_position-row q (u ∷ v ∷ users) c h e = last_position-row q (v ∷ users) c (ground arith) e

pub keep-after_at :
    (u : User) (users : List User)
    → all (is_before (position u)) users ≡ true
    → keep (is_before (position u)) (u ∷ users) ≡ users
keep-after_at u users h = ground (arith, keep-all (is_before (position u)) users h)

pub keep-after_self :
    (u : User) (users : List User) (c : Cursor)
    → all (is_before (position u)) users ≡ true
    → position u ≡ c
    → keep (is_before c) (u ∷ users) ≡ users
keep-after_self u users c h e =
    ap (λ d. keep (is_before d) (u ∷ users)) (sym e) ∙ keep-after_at u users h

pub not_before_last :
    (u : User) (page : List User) (c : Cursor)
    → all (is_before (position u)) page ≡ true
    → last_position page ≡ some c
    → is_before c u ≡ false
not_before_last u page c h e =
    let (v, later, at) = last_position-row (is_before (position u)) page c h e in
    rw (sym at) (is_before_asym u v later)

pub some-injective : (a b : Cursor) → some a ≡ some b → a ≡ b
some-injective a b e = cc e

-- What lies past the last row of a page is what the page left of the ordered rows.
pub keep-last_position :
    (n : ℕ) (users : List User) (c : Cursor)
    → Descending users
    → last_position (take (suc n) users) ≡ some c
    → keep (is_before c) users ≡ drop (suc n) users
keep-last_position n [] c h e = refl
keep-last_position zero (u ∷ users) c h e =
    keep-after_self u users c h.0 (some-injective (position u) c e)
keep-last_position (suc n) (u ∷ []) c h e =
    keep-after_self u [] c refl (some-injective (position u) c e)
keep-last_position (suc n) (u ∷ v ∷ users) c h e =
    let past_u =
      not_before_last u (take (suc n) (v ∷ users)) c
        (all-take (is_before (position u)) (suc n) (v ∷ users) h.0) e in
    rw past_u (keep-last_position n (v ∷ users) c h.1 e)
