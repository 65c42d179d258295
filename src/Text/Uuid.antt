-- ===== src/Text/Uuid.antt =====
-- `str(uuid)`: 32 hexadecimal digits in groups of 8, 4, 4, 4 and 12.
pub mod Reading
use Prim.Native.Nat.{◌^◌}
use mathlib.Core.List.{append-nil}
use mathlib.Core.Option
use udesa_x_users_api.Common.{
  ◌>>=◌, ℕ, zero, suc, ◌+◌, ◌-◌, ◌*◌, ◌/◌, ◌%◌, ◌<◌, ◌≡◌, Bool, true, false, ◌&&◌, ◌||◌, Option,
  none, some, [], ◌∷◌, ◌++◌, arith, Text, ◌==◌, nat_eq, ltb, leb, if◌then◌else◌,
}

unfoldable pub hex_digit : ℕ → ℕ
hex_digit n = if ltb n 10 then b'0' + n else b'a' + (n - 10)

-- A dash stands before the digits at these positions.
abbrev pub dash_before : ℕ → Text
dash_before k = if k == 8 || k == 12 || k == 16 || k == 20 then b'-' ∷ [] else []

unfoldable pub spell : ℕ → ℕ → Text
unfolding hex_digit
spell zero n = []
spell (suc k) n = (spell k (n / 16) ++ dash_before k) ++ hex_digit (n % 16) ∷ []

unfoldable pub str_uuid : ℕ → Text
str_uuid n = spell 32 n

-- The text after a prefix, which it has to start with.
unfoldable pub skip : Text → Text → Option Text
skip [] s = some s
skip (c ∷ prefix) [] = none
skip (c ∷ prefix) (d ∷ s) = if c == d then skip prefix s else none

-- The digit that a character stands for, in lower case.
abbrev pub hex_value : ℕ → Option ℕ
hex_value c =
    if leb b'0' c && leb c b'9'
    then some (c - b'0')
    else if leb b'a' c && leb c b'f'
    then some (c - b'a' + 10)
    else none

unfoldable pub read_hex : Text → Option (ℕ × Text)
read_hex [] = none
read_hex (c ∷ s) = Option.map (λ d. (d, s)) (hex_value c)

-- What follows the dash before the digit at the position `k`.
unfoldable pub read_dash : ℕ → Text → Option Text
read_dash k s = skip (dash_before k) s

unfoldable pub unspell : (count k value : ℕ) → Text → Option (ℕ × Text)
unspell zero k value s = some (value, s)
unspell (suc count) k value s = do
  s ← read_dash k s
  (d, s) ← read_hex s
  unspell count (suc k) (value * 16 + d) s

-- A UUID as `str` spells it at the head of a text, and what follows it.
unfoldable pub read_uuid : Text → Option (ℕ × Text)
read_uuid s = unspell 32 0 0 s

-- `n` has at most `k` hexadecimal digits.
abbrev pub Fits : ℕ → ℕ → Type 0
Fits zero n = n ≡ 0
Fits (suc k) n = Fits k (n / 16)

snoc-injective : (s t : Text) {c d : ℕ} → s ++ c ∷ [] ≡ t ++ d ∷ [] → (s ≡ t) × (c ≡ d)
snoc-injective [] [] e = ground arith
snoc-injective [] (y ∷ []) e = ground arith
snoc-injective [] (y ∷ z ∷ t) e = ground arith
snoc-injective (x ∷ []) [] e = ground arith
snoc-injective (x ∷ z ∷ s) [] e = ground arith
snoc-injective (x ∷ s) (y ∷ t) {c} {d} e =
    let h : s ++ c ∷ [] ≡ t ++ d ∷ [] = cc in let (p, q) = snoc-injective s t h in (cc, q)

dash-injective :
    (b : Bool) (s t : Text)
    → s ++ (if b then b'-' ∷ [] else []) ≡ t ++ (if b then b'-' ∷ [] else [])
    → s ≡ t
dash-injective true s t e = (snoc-injective s t e).0
dash-injective false s t e = cc (append-nil s, append-nil t)

hex_digit-injective : (n m : ℕ) → n < 16 → m < 16 → hex_digit n ≡ hex_digit m → n ≡ m
unfolding hex_digit
hex_digit-injective n m hn hm e = ground arith

spell-injective : (k n m : ℕ) → Fits k n → Fits k m → spell k n ≡ spell k m → n ≡ m
unfolding spell
spell-injective zero n m hn hm e = omega arith
spell-injective (suc k) n m hn hm e =
    let (init, last) = snoc-injective _ _ e in
    let high : n / 16 ≡ m / 16 =
      spell-injective k (n / 16) (m / 16) hn hm (dash-injective _ _ _ init) in
    let low : n % 16 ≡ m % 16 =
      hex_digit-injective (n % 16) (m % 16) (omega arith) (omega arith) last in
    omega arith

-- A UUID has 128 bits.
abbrev pub IsUuid : ℕ → Type 0
IsUuid n = n < 2 ^ 128

IsUuid-Fits : (n : ℕ) → IsUuid n → Fits 32 n
IsUuid-Fits n h = omega arith

pub str_uuid-injective : (n m : ℕ) → IsUuid n → IsUuid m → str_uuid n ≡ str_uuid m → n ≡ m
unfolding str_uuid
str_uuid-injective n m hn hm e = spell-injective 32 n m (IsUuid-Fits n hn) (IsUuid-Fits m hm) e
