-- ===== src/Text/Base64.antt =====
-- `base64.urlsafe_b64encode` and `urlsafe_b64decode`, on lists of bytes. The reader takes both
-- alphabets, passes over every other character, and stops where the padding completes a group.
use mathlib.Core.Option
use udesa_x_users_api.Common.{
  ℕ, ◌+◌, ◌-◌, ◌*◌, ◌/◌, ◌%◌, ◌<◌, ◌≡◌, refl, ap, ◌&&◌, ◌||◌, Option, none, some, List, [], ◌∷◌,
  Text, ◌==◌, nat_eq, ltb, leb, All, arith, if◌then◌else◌,
}

unfoldable pub sextet_char : ℕ → ℕ
sextet_char n =
    if ltb n 26
    then b'A' + n
    else if ltb n 52
    then b'a' + (n - 26)
    else if ltb n 62
    then b'0' + (n - 52)
    else if n == 62
    then b'-'
    else b'_'

unfoldable pub urlsafe_b64encode : List ℕ → Text
urlsafe_b64encode [] = []
urlsafe_b64encode (a ∷ []) = sextet_char (a / 4) ∷ sextet_char (a % 4 * 16) ∷ b'=' ∷ b'=' ∷ []
urlsafe_b64encode (a ∷ b ∷ []) =
    sextet_char (a / 4) ∷ sextet_char (a % 4 * 16 + b / 16) ∷ sextet_char (b % 16 * 4) ∷ b'=' ∷ []
urlsafe_b64encode (a ∷ b ∷ c ∷ rest) =
    sextet_char (a / 4)
    ∷ sextet_char (a % 4 * 16 + b / 16)
    ∷ sextet_char (b % 16 * 4 + c / 64)
    ∷ sextet_char (c % 64)
    ∷ urlsafe_b64encode rest

pub data Symbol : Type 0 where
  sextet : ℕ → Symbol
  padding other : Symbol

unfoldable pub symbol : ℕ → Symbol
symbol c =
    if leb b'A' c && leb c b'Z'
    then sextet (c - b'A')
    else if leb b'a' c && leb c b'z'
    then sextet (c - b'a' + 26)
    else if leb b'0' c && leb c b'9'
    then sextet (c - b'0' + 52)
    else if c == b'-' || c == b'+'
    then sextet 62
    else if c == b'_' || c == b'/'
    then sextet 63
    else if c == b'='
    then padding
    else other

-- Where in a group the reader stands, and the bits left over. The last is the third place after one
-- padding character.
pub data Place : Type 0 where
  first : Place
  second third fourth third_padded : (bits : ℕ) → Place

abbrev pub ended : Place → Option (List ℕ)
ended first = some []
ended _ = none

pub data Move : Type 0 where
  to : Place → Move
  emit : (byte : ℕ) → Place → Move
  stop : Move

unfoldable pub advance : Place → Symbol → Move
advance place other = to place
advance first padding = to first
advance (second bits) padding = to (second bits)
advance (third bits) padding = to (third_padded bits)
advance (third_padded bits) padding = stop
advance (fourth bits) padding = stop
advance first (sextet v) = to (second v)
advance (second bits) (sextet v) = emit (bits * 4 + v / 16) (third (v % 16))
advance (third bits) (sextet v) = emit (bits * 16 + v / 4) (fourth (v % 4))
advance (third_padded bits) (sextet v) = emit (bits * 16 + v / 4) (fourth (v % 4))
advance (fourth bits) (sextet v) = emit (bits * 64 + v) first

-- The bytes of a move, given how the reader goes on.
abbrev pub after : (Place → Option (List ℕ)) → Move → Option (List ℕ)
after go (to next) = go next
after go (emit byte next) = Option.map (λ rest. byte ∷ rest) (go next)
after go stop = some []

unfoldable pub read_from : Place → Text → Option (List ℕ)
read_from place [] = ended place
read_from place (c ∷ s) = after (λ next. read_from next s) (advance place (symbol c))

unfoldable pub urlsafe_b64decode : Text → Option (List ℕ)
unfolding read_from
urlsafe_b64decode s = read_from first s

symbol-sextet_char : (n : ℕ) → n < 64 → symbol (sextet_char n) ≡ sextet n
unfolding symbol sextet_char
symbol-sextet_char n h = ground arith

-- One character of the encoder moves the reader by its sextet.
read-sextet :
    (place : Place) (n : ℕ) (s : Text)
    → n < 64
    → read_from place (sextet_char n ∷ s)
      ≡ after (λ next. read_from next s) (advance place (sextet n))
unfolding read_from
read-sextet place n s h =
    ap (λ x. after (λ next. read_from next s) (advance place x)) (symbol-sextet_char n h)

read-nothing : read_from first [] ≡ some []
unfolding read_from
read-nothing = refl

read-one_padding : (bits : ℕ) → read_from (fourth bits) (b'=' ∷ []) ≡ some []
unfolding read_from advance symbol
read-one_padding bits = refl

read-two_paddings : (bits : ℕ) → read_from (third bits) (b'=' ∷ b'=' ∷ []) ≡ some []
unfolding read_from advance symbol
read-two_paddings bits = refl

read-encoded :
    (bytes : List ℕ)
    → All (λ b. b < 256) bytes
    → read_from first (urlsafe_b64encode bytes) ≡ some bytes
unfolding urlsafe_b64encode advance
read-encoded [] h = read-nothing
read-encoded (a ∷ []) h =
    rw
      (
        read-sextet first (a / 4) _ (omega (arith, h.0)),
        read-sextet (second (a / 4)) (a % 4 * 16) _ (omega arith),
        read-two_paddings (a % 4 * 16 % 16),
      )
      (ap (λ n. some (n ∷ [])) (omega arith))
read-encoded (a ∷ b ∷ []) h =
    rw
      (
        read-sextet first (a / 4) _ (omega (arith, h.0)),
        read-sextet (second (a / 4)) (a % 4 * 16 + b / 16) _ (omega (arith, h.1.0)),
        read-sextet (third ((a % 4 * 16 + b / 16) % 16)) (b % 16 * 4) _ (omega arith),
        read-one_padding (b % 16 * 4 % 4),
      )
      (λ i. some (first_byte i ∷ second_byte i ∷ []))
  where
    first_byte : a / 4 * 4 + (a % 4 * 16 + b / 16) / 16 ≡ a
    first_byte = omega (arith, h.1.0)

    second_byte : (a % 4 * 16 + b / 16) % 16 * 16 + b % 16 * 4 / 4 ≡ b
    second_byte = omega (arith, h.1.0)
read-encoded (a ∷ b ∷ c ∷ rest) h =
    rw
      (
        read-sextet first (a / 4) _ (omega (arith, h.0)),
        read-sextet (second (a / 4)) (a % 4 * 16 + b / 16) _ (omega (arith, h.1.0)),
        read-sextet (third ((a % 4 * 16 + b / 16) % 16)) (b % 16 * 4 + c / 64) _
            (omega (arith, h.1.1.0)),
        read-sextet (fourth ((b % 16 * 4 + c / 64) % 4)) (c % 64) _ (omega arith),
        read-encoded rest h.1.1.1,
      )
      (λ i. some (first_byte i ∷ second_byte i ∷ third_byte i ∷ rest))
  where
    first_byte : a / 4 * 4 + (a % 4 * 16 + b / 16) / 16 ≡ a
    first_byte = omega (arith, h.1.0)

    second_byte : (a % 4 * 16 + b / 16) % 16 * 16 + (b % 16 * 4 + c / 64) / 4 ≡ b
    second_byte = omega (arith, h.1.0, h.1.1.0)

    third_byte : (b % 16 * 4 + c / 64) % 4 * 64 + c % 64 ≡ c
    third_byte = omega (arith, h.1.1.0)

pub urlsafe_b64decode-encode :
    (bytes : List ℕ)
    → All (λ b. b < 256) bytes
    → urlsafe_b64decode (urlsafe_b64encode bytes) ≡ some bytes
unfolding urlsafe_b64decode
urlsafe_b64decode-encode bytes h = read-encoded bytes h
