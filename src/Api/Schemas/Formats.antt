-- ===== src/Api/Schemas/Formats.antt =====
-- What the pattern of a handle accepts.
use Prim.Native.Nat.{pred}
use udesa_x_users_api.Common.{
  ℕ, zero, suc, ◌≡◌, refl, inl, inr, Bool, true, false, ◌&&◌, [], ◌∷◌, Text, ◌==◌, nat_eq, leb, all,
  length, arith, Bool-cases, if◌then◌else◌,
}
use udesa_x_users_api.Text.{lower}
use udesa_x_users_api.Api.Schemas.{
  valid, invalid, is_handle_char, at_end, matches_run, enforce_handle_format, handle_message,
}

-- A text without one line feed at its end.
abbrev pub chomp : Text → Text
chomp [] = []
chomp (c ∷ []) = if c == 10 then [] else c ∷ []
chomp (c ∷ d ∷ s) = c ∷ chomp (d ∷ s)

-- Between `least` and `most` letters, digits and underscores.
abbrev pub is_run : ℕ → ℕ → Text → Bool
is_run least most s = all is_handle_char s && leb least (length s) && leb (length s) most

chomp-cons : (c : ℕ) (s : Text) → at_end (c ∷ s) ≡ false → chomp (c ∷ s) ≡ c ∷ chomp s
chomp-cons c [] h = ground arith
chomp-cons c (d ∷ s) h = refl

chomp-at_end :
    (c : ℕ) (s : Text) → at_end (c ∷ s) ≡ true → (chomp (c ∷ s) ≡ []) × (c ≡ 10) × (s ≡ [])
chomp-at_end c [] h = (ground arith, ground arith, refl)
chomp-at_end c (d ∷ s) h = absurd (cc h)

feed_is_no_handle_char : is_handle_char 10 ≡ false
unfolding is_handle_char
feed_is_no_handle_char = refl

matches_run-is_run :
    (least most : ℕ) (s : Text) → matches_run least most s ≡ is_run least most (chomp s)
unfolding matches_run
matches_run-is_run zero most [] = ground arith
matches_run-is_run (suc least) most [] = ground arith
matches_run-is_run zero most (c ∷ s) = elim (Bool-cases (at_end (c ∷ s))) [
  | inl ends ↦ ground (arith, ends, chomp-at_end c s ends)
  | inr goes ↦ ground (arith, goes, chomp-cons c s goes, matches_run-is_run zero (pred most) s)
]
matches_run-is_run (suc least) most (c ∷ s) = elim (Bool-cases (at_end (c ∷ s))) [
  | inl ends ↦
      let (none_left, c_feed, no_more) = chomp-at_end c s ends in
      ground (arith, none_left, c_feed, feed_is_no_handle_char)
  | inr goes ↦ ground (arith, goes, chomp-cons c s goes, matches_run-is_run least (pred most) s)
]

-- The format of a handle accepts an `@` before 4 to 15 letters, digits and underscores, and the same
-- with one line feed at its end, and puts the accepted text in lower case as it stands. It refuses
-- every other text.
pub enforce_handle_format-is_run :
    (c : ℕ) (s : Text)
    → enforce_handle_format (c ∷ s) ≡ (
        if c == b'@' && is_run 4 15 (chomp s)
        then valid (lower (c ∷ s))
        else invalid handle_message)
unfolding enforce_handle_format
enforce_handle_format-is_run c s = ground (arith, matches_run-is_run 4 15 s)
