-- ===== src/Text/Laws.antt =====
-- Normalising a text twice is normalising it once.
use udesa_x_users_api.Common.{
  false, inl, inr, Bool-cases, ℕ, ◌≡◌, refl, Bool, [], ◌∷◌, map, arith, Text,
}
use udesa_x_users_api.Text.{
  cons_rstrip, is_space, lower_char, lower, lstrip_where, rstrip_where, strip, normalise,
}

pub lower_char_idem : (c : ℕ) → lower_char (lower_char c) ≡ lower_char c
unfolding lower_char
lower_char_idem c = ground arith

pub is_space-lower_char : (c : ℕ) → is_space (lower_char c) ≡ is_space c
unfolding lower_char is_space
is_space-lower_char c = ground arith

module _ (p : ℕ → Bool) where
  lstrip_where_idem : (s : Text) → lstrip_where p (lstrip_where p s) ≡ lstrip_where p s
  unfolding lstrip_where
  lstrip_where_idem [] = refl
  lstrip_where_idem (c ∷ s) = ground (arith, lstrip_where_idem s)

  rstrip_where_idem : (s : Text) → rstrip_where p (rstrip_where p s) ≡ rstrip_where p s
  unfolding rstrip_where
  rstrip_where_idem [] = refl
  rstrip_where_idem (c ∷ s) = ground (arith, rstrip_where_idem s)

  lstrip-cons_rstrip :
      (c : ℕ) (t : Text) → p c ≡ false → lstrip_where p (cons_rstrip p c t) ≡ cons_rstrip p c t
  unfolding lstrip_where
  lstrip-cons_rstrip c [] h = ground arith
  lstrip-cons_rstrip c (d ∷ t) h = ground arith

  lstrip-rstrip :
      (s : Text)
      → lstrip_where p (rstrip_where p (lstrip_where p s)) ≡ rstrip_where p (lstrip_where p s)
  unfolding lstrip_where rstrip_where
  lstrip-rstrip [] = refl
  lstrip-rstrip (c ∷ s) = elim (Bool-cases (p c)) [
    | inl yes_space ↦ rw yes_space (lstrip-rstrip s)
    | inr other ↦ rw other (lstrip-cons_rstrip c (rstrip_where p s) other)
  ]

  module _ (f : ℕ → ℕ) (same : (c : ℕ) → p (f c) ≡ p c) where
    lstrip-map : (s : Text) → lstrip_where p (map f s) ≡ map f (lstrip_where p s)
    unfolding lstrip_where
    lstrip-map [] = refl
    lstrip-map (c ∷ s) = ground (arith, same c, lstrip-map s)

    rstrip-map : (s : Text) → rstrip_where p (map f s) ≡ map f (rstrip_where p s)
    unfolding rstrip_where
    rstrip-map [] = refl
    rstrip-map (c ∷ s) = ground (arith, same c, rstrip-map s)

lower_idem : (s : Text) → lower (lower s) ≡ lower s
unfolding lower
lower_idem [] = refl
lower_idem (c ∷ s) = cc (lower_char_idem c, lower_idem s)

strip_idem : (s : Text) → strip (strip s) ≡ strip s
unfolding strip
strip_idem s = rw (lstrip-rstrip is_space s) (rstrip_where_idem is_space (lstrip_where is_space s))

strip-lower : (s : Text) → strip (lower s) ≡ lower (strip s)
strip-lower s =
    unfold strip lower in
    rw (lstrip-map is_space lower_char is_space-lower_char s)
      (rstrip-map is_space lower_char is_space-lower_char (lstrip_where is_space s))

-- What is stored and looked up is a fixed point of the normalisation.
pub normalise_idem : (s : Text) → normalise (normalise s) ≡ normalise s
unfolding normalise
normalise_idem s = rw (strip-lower, strip_idem, lower_idem)
