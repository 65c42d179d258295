-- ===== src/Text/Iso/Reading.antt =====
-- What `isoformat` writes is read back.
use mathlib.Core.List.{append_assoc}
use udesa_x_users_api.Common.{
  ℕ, suc, ◌+◌, ◌*◌, ◌/◌, ◌%◌, ◌<◌, ◌≡◌, refl, ap, ◌∙◌, true, some, ◌∷◌, ◌++◌, Text, codes, ◌==◌,
  nat_eq, arith, Bool-cases, inl, inr,
}
use udesa_x_users_api.Text.Calendar.{
  month_lengths, year_of, year_of-days, year_of-inside, split_month-days, month-inside,
  month-bounded, month_lengths-short,
}
use udesa_x_users_api.Text.Iso.{
  Fields, two, six, fraction, read_two, read_char, read_fraction, fields_of, instant_of, in_range,
  isoformat, read_isoformat, checked, day_of,
}

instant_of-fields_of : (t : ℕ) → instant_of (fields_of t) ≡ t
unfolding instant_of fields_of
instant_of-fields_of t =
    let (year, day_of_year) = year_of (day_of t) in
    omega (
      arith,
      year_of-days (day_of t),
      split_month-days (month_lengths (year_of (day_of t)).0) (year_of (day_of t)).1,
    )

read_two-two : (n : ℕ) (s : Text) → n < 100 → read_two (two n ++ s) ≡ some (n, s)
unfolding read_two two
read_two-two n s h = ground arith

pub read_char-same : (c : ℕ) (s : Text) → read_char c (c ∷ s) ≡ some s
unfolding read_char
read_char-same c s = ground arith

pub fields-in_range : (t : ℕ) → in_range (fields_of t) ≡ true
unfolding fields_of
fields-in_range t = ground (
  arith,
  month-inside (year_of (day_of t)).0 (year_of (day_of t)).1 (year_of-inside (day_of t)),
  month-bounded (year_of (day_of t)).0 (year_of (day_of t)).1 (year_of-inside (day_of t)),
)

pub record AreShort (f : Fields) : Type 0 where
  pub month : f.month < 12
  pub day : f.day < 31
  pub hour : f.hour < 24
  pub minute : f.minute < 60
  pub second : f.second < 60

pub in_range-AreShort : (f : Fields) → in_range f ≡ true → AreShort f
in_range-AreShort f h = record {
  month = ground (arith, h);
  day = ground (arith, h, month_lengths-short f.year f.month);
  hour = ground (arith, h);
  minute = ground (arith, h);
  second = ground (arith, h);
}

pub microsecond-short : (t : ℕ) → (fields_of t).microsecond < 1000000
unfolding fields_of
microsecond-short t = omega arith

checked-fields :
    (f : Fields)
    → in_range f ≡ true
    → checked (1970 + f.year) (suc f.month) (suc f.day) f.hour f.minute f.second f.microsecond
      ≡ some (instant_of f)
unfolding checked
checked-fields f h = ground (arith, h)

checked-isoformat :
    (t : ℕ)
    → let f = fields_of t in
      checked
        ((1970 + f.year) / 100 * 100 + (1970 + f.year) % 100)
        (suc f.month)
        (suc f.day)
        f.hour
        f.minute
        f.second
        f.microsecond
      ≡ some t
checked-isoformat t =
    rw (year (1970 + (fields_of t).year))
      (checked-fields (fields_of t) (fields-in_range t) ∙ ap some (instant_of-fields_of t))
  where
    year : (y : ℕ) → y / 100 * 100 + y % 100 ≡ y
    year y = omega arith

read_six : (n : ℕ) (s : Text) → n < 1000000 → read_fraction (b'.' ∷ six n ++ s) ≡ some (n, s)
unfolding read_fraction six two
read_six n s h =
    rw
      (
        read_two-two (n / 10000) (two (n / 100 % 100) ++ two (n % 100) ++ s) (omega (arith, h)),
        read_two-two (n / 100 % 100) (two (n % 100) ++ s) (omega arith),
        read_two-two (n % 100) s (omega arith),
      )
      (ap (λ m. some (m, s)) (omega arith))

read_fraction-fraction :
    (n : ℕ) (s : Text) → n < 1000000 → read_fraction (fraction n ++ b'+' ∷ s) ≡ some (n, b'+' ∷ s)
unfolding read_fraction fraction
read_fraction-fraction n s h = elim (Bool-cases (n == 0)) [
  | inl whole ↦ rw whole (ground (arith, whole))
  | inr some_digits ↦ rw some_digits (read_six n (b'+' ∷ s) h)
]

-- A text that starts with an instant as `isoformat` writes it, of a year of four digits, is read as
-- that instant and the rest.
pub read_isoformat-isoformat :
    (t : ℕ) (s : Text) → (fields_of t).year < 8030 → read_isoformat (isoformat t ++ s) ≡ some (t, s)
unfolding read_isoformat isoformat two
read_isoformat-isoformat t s h =
    let short = in_range-AreShort (fields_of t) (fields-in_range t) in
    rw
      (
        read_two-two ((1970 + (fields_of t).year) / 100) _ (omega (arith, h)),
        read_two-two ((1970 + (fields_of t).year) % 100) _ (omega arith),
        read_char-same b'-' _,
        read_two-two (suc (fields_of t).month) _ (omega (arith, short.month)),
        read_char-same b'-' _,
        read_two-two (suc (fields_of t).day) _ (omega (arith, short.day)),
        read_char-same b'T' _,
        read_two-two (fields_of t).hour _ (omega (arith, short.hour)),
        read_char-same b':' _,
        read_two-two (fields_of t).minute _ (omega (arith, short.minute)),
        read_char-same b':' _,
        read_two-two (fields_of t).second _ (omega (arith, short.second)),
        append_assoc (fraction (fields_of t).microsecond) (codes "+00:00") s,
        read_fraction-fraction (fields_of t).microsecond (codes "00:00" ++ s) (microsecond-short t),
        read_char-same b'+' _,
        read_two-two 0 _ (omega arith),
        read_char-same b':' _,
        read_two-two 0 _ (omega arith),
        checked-isoformat t,
      )
      refl
