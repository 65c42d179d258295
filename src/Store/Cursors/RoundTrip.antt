-- ===== src/Store/Cursors/RoundTrip.antt =====
-- A cursor that the service hands out is read back as the position it was made of.
use mathlib.Core.List.{append-nil}
use udesa_x_users_api.Common.{
  ℕ, zero, suc, ◌+◌, ◌/◌, ◌%◌, ◌<◌, ◌≡◌, refl, sym, Bool, true, false, ◌||◌, if◌then◌else◌, ap, ◌∙◌,
  Option, some, List, [], ◌∷◌, ◌++◌, Text, All, All-join, arith, codes, Bool-cases, inl, inr,
  nat_eq, ◌==◌,
}
use udesa_x_users_api.Text.Base64.{urlsafe_b64decode-encode}
use udesa_x_users_api.Text.Iso.{two, six, fraction, isoformat, fields_of}
use udesa_x_users_api.Text.Iso.Reading.{
  read_isoformat-isoformat, fields-in_range, in_range-AreShort, read_char-same, microsecond-short,
}
use udesa_x_users_api.Text.Uuid.{hex_digit, dash_before, spell, str_uuid, read_uuid, IsUuid}
use udesa_x_users_api.Text.Uuid.Reading.{read_uuid-str_uuid}
use udesa_x_users_api.Store.Searches.{Cursor}
use udesa_x_users_api.Store.Cursors.{spelled, encode_cursor, read_spelled, decode_cursor}

abbrev AreBytes : Text → Type 0
AreBytes = All (λ c. c < 256)

two-AreBytes : (n : ℕ) → n < 100 → AreBytes (two n)
unfolding two
two-AreBytes n h = (omega (arith, h), (omega arith, tt))

fraction-AreBytes : (n : ℕ) → n < 1000000 → AreBytes (fraction n)
unfolding fraction six
fraction-AreBytes n h = elim (Bool-cases (n == 0)) [
  | inl whole_second ↦ rw whole_second tt
  | inr parts ↦ rw parts (
    omega arith,
    All-join (λ c. c < 256) (two (n / 10000) ++ two (n / 100 % 100)) (two (n % 100))
        (All-join (λ c. c < 256) (two (n / 10000)) (two (n / 100 % 100))
          (two-AreBytes (n / 10000) (omega (arith, h)))
          (two-AreBytes (n / 100 % 100) (omega arith)))
        (two-AreBytes (n % 100) (omega arith)),
  )
]

hex_digit-byte : (n : ℕ) → n < 16 → hex_digit n < 256
unfolding hex_digit
hex_digit-byte n h = ground arith

dash_if-AreBytes : (b : Bool) → AreBytes (if b then b'-' ∷ [] else [])
dash_if-AreBytes true = (omega arith, tt)
dash_if-AreBytes false = tt

dash-AreBytes : (k : ℕ) → AreBytes (dash_before k)
dash-AreBytes k = dash_if-AreBytes (k == 8 || k == 12 || k == 16 || k == 20)

spell-AreBytes : (k n : ℕ) → AreBytes (spell k n)
unfolding spell
spell-AreBytes zero n = tt
spell-AreBytes (suc k) n =
    All-join (λ c. c < 256) (spell k (n / 16) ++ dash_before k) (hex_digit (n % 16) ∷ [])
      (All-join (λ c. c < 256) (spell k (n / 16)) (dash_before k) (spell-AreBytes k (n / 16))
        (dash-AreBytes k))
      (hex_digit-byte (n % 16) (omega arith), tt)

two_digits :
    (n : ℕ) {T : Type 0} → n < 100 → T → (b'0' + n / 10 < 256) × ((b'0' + n % 10 < 256) × T)
two_digits n h rest = (omega (arith, h), (omega arith, rest))

isoformat-AreBytes : (t : ℕ) → (fields_of t).year < 8030 → AreBytes (isoformat t)
unfolding isoformat two
isoformat-AreBytes t h =
    let f = fields_of t in
    let short = in_range-AreShort f (fields-in_range t) in
    two_digits ((1970 + f.year) / 100) (omega (arith, h)) (
      two_digits ((1970 + f.year) % 100) (omega arith) (
        omega arith,
        two_digits (suc f.month) (omega (arith, short.month)) (
          omega arith,
          two_digits (suc f.day) (omega (arith, short.day)) (
            omega arith,
            two_digits f.hour (omega (arith, short.hour)) (
              omega arith,
              two_digits f.minute (omega (arith, short.minute)) (
                omega arith,
                two_digits f.second (omega (arith, short.second)) (
                    All-join (λ c. c < 256) (fraction f.microsecond) (codes "+00:00")
                      (fraction-AreBytes f.microsecond (microsecond-short t)) zone),
              ),
            ),
          ),
        ),
      ))
  where
    zone : AreBytes (codes "+00:00")
    zone =
        (omega arith, (omega arith, (omega arith, (omega arith, (omega arith, (omega arith, tt))))))

spelled-AreBytes : (c : Cursor) → (fields_of c.0).year < 8030 → AreBytes (spelled c)
unfolding spelled str_uuid
spelled-AreBytes c h =
    All-join (λ c. c < 256) (isoformat c.0) (b'|' ∷ str_uuid c.1) (isoformat-AreBytes c.0 h)
      (omega arith, spell-AreBytes 32 c.1)

read_spelled-spelled :
    (c : Cursor) → (fields_of c.0).year < 8030 → IsUuid c.1 → read_spelled (spelled c) ≡ some c
unfolding read_spelled spelled
read_spelled-spelled c h hid =
    rw
      (
        read_isoformat-isoformat c.0 (b'|' ∷ str_uuid c.1) h,
        read_char-same b'|' (str_uuid c.1),
        read_end,
      )
      refl
  where
    read_end : read_uuid (str_uuid c.1) ≡ some (c.1, [])
    read_end = ap read_uuid (sym (append-nil (str_uuid c.1))) ∙ read_uuid-str_uuid c.1 [] hid

-- Whatever reads the other spellings, a cursor that the service hands out, of an instant before the
-- year 10000 and of an id of 128 bits, is read back as the position that it was made of.
pub decode_cursor-encode_cursor :
    (other_spelling : List ℕ → Option Cursor) (c : Cursor)
    → (fields_of c.0).year < 8030
    → IsUuid c.1
    → decode_cursor other_spelling (encode_cursor c) ≡ some c
unfolding decode_cursor encode_cursor
decode_cursor-encode_cursor other_spelling c h hid =
    rw (urlsafe_b64decode-encode (spelled c) (spelled-AreBytes c h), read_spelled-spelled c h hid)
      refl
