-- ===== src/Text/Uuid/Reading.antt =====
-- What `str` spells of a UUID is read back.
use mathlib.Core.List.{append_assoc}
use udesa_x_users_api.Common.{
  ℕ, zero, suc, ◌+◌, ◌*◌, ◌/◌, ◌%◌, ◌<◌, ◌≡◌, refl, ap, ◌∙◌, some, [], ◌∷◌, ◌++◌, Text, arith,
  nat_eq,
}
use udesa_x_users_api.Text.Uuid.{
  hex_digit, dash_before, spell, str_uuid, skip, read_hex, read_dash, unspell, read_uuid, Fits,
  IsUuid, IsUuid-Fits,
}

skip-same : (prefix s : Text) → skip prefix (prefix ++ s) ≡ some s
unfolding skip
skip-same [] s = refl
skip-same (c ∷ prefix) s = ground (arith, skip-same prefix s)

read_hex-digit : (n : ℕ) (s : Text) → n < 16 → read_hex (hex_digit n ∷ s) ≡ some (n, s)
unfolding read_hex hex_digit
read_hex-digit n s h = ground arith

unspell-digit :
    (count k value d : ℕ) (s : Text)
    → d < 16
    → unspell (suc count) k value (dash_before k ++ hex_digit d ∷ s)
      ≡ unspell count (suc k) (value * 16 + d) s
unfolding unspell read_dash
unspell-digit count k value d s h =
    rw (skip-same (dash_before k) (hex_digit d ∷ s), read_hex-digit d s h) refl

unspell-spell :
    (k count n : ℕ) (s : Text)
    → Fits k n
    → unspell (k + count) 0 0 (spell k n ++ s) ≡ unspell count k n s
unfolding spell
unspell-spell zero count n s h = λ i. unspell (all i) 0 (nothing i) s
  where
    all : 0 + count ≡ count
    all = omega arith

    nothing : 0 ≡ n
    nothing = omega (arith, h)
unspell-spell (suc k) count n s h =
    (λ i. unspell (left i) 0 0 (apart i))
    ∙ unspell-spell k (suc count) (n / 16) (dash_before k ++ hex_digit (n % 16) ∷ s) h
    ∙ unspell-digit count k (n / 16) (n % 16) s (omega arith)
    ∙ ap (λ v. unspell count (suc k) v s) (omega arith)
  where
    left : suc k + count ≡ k + suc count
    left = omega arith

    apart :
        ((spell k (n / 16) ++ dash_before k) ++ hex_digit (n % 16) ∷ []) ++ s
        ≡ spell k (n / 16) ++ (dash_before k ++ hex_digit (n % 16) ∷ s)
    apart =
        append_assoc (spell k (n / 16) ++ dash_before k) (hex_digit (n % 16) ∷ []) s
        ∙ append_assoc (spell k (n / 16)) (dash_before k) (hex_digit (n % 16) ∷ s)

-- A text that starts with a UUID as `str` spells it is read as that UUID and the rest.
pub read_uuid-str_uuid : (n : ℕ) (s : Text) → IsUuid n → read_uuid (str_uuid n ++ s) ≡ some (n, s)
unfolding read_uuid str_uuid unspell
read_uuid-str_uuid n s h = unspell-spell 32 0 n s (IsUuid-Fits n h)
