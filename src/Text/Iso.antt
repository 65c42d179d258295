-- ===== src/Text/Iso.antt =====
-- `datetime.isoformat` of an instant in UTC, and `datetime.fromisoformat` on what it writes, from 1970
-- on. An instant is its microseconds since then.
pub mod Reading
use udesa_x_users_api.Common.{
  ◌>>=◌, ℕ, suc, ◌+◌, ◌-◌, ◌*◌, ◌/◌, ◌%◌, ◌<◌, ◌≡◌, refl, ap, Bool, true, false, ◌&&◌, ◌||◌, Option,
  none, some, List, [], ◌∷◌, ◌++◌, Text, codes, ◌==◌, nat_eq, ltb, leb, arith, if◌then◌else◌,
  Bool-cases, inl, inr,
}
use udesa_x_users_api.Text.Calendar.{
  month_lengths, days_before_year, days_before_month, length_at, year_of, split_month, days_in_year,
  year_of-days, year_of-inside, split_month-days, month-inside, month-bounded,
}

-- Numbers of two, four and six digits.
unfoldable pub two : ℕ → Text
two n = (b'0' + n / 10) ∷ (b'0' + n % 10) ∷ []

unfoldable pub six : ℕ → Text
six n = two (n / 10000) ++ two (n / 100 % 100) ++ two (n % 100)

abbrev is_decimal : ℕ → Bool
is_decimal c = leb b'0' c && leb c b'9'

unfoldable pub read_two : Text → Option (ℕ × Text)
read_two (a ∷ b ∷ s) =
    if is_decimal a && is_decimal b then some ((a - b'0') * 10 + (b - b'0'), s) else none
read_two _ = none

unfoldable pub read_char : ℕ → Text → Option Text
read_char c [] = none
read_char c (d ∷ s) = if c == d then some s else none

-- The fields of an instant: the years since 1970, the month and the day from 0, and the rest.
pub record Fields : Type 0 where
  pub year : ℕ
  pub month : ℕ
  pub day : ℕ
  pub hour : ℕ
  pub minute : ℕ
  pub second : ℕ
  pub microsecond : ℕ

abbrev day_of : ℕ → ℕ
day_of t = t / 86400000000

unfoldable pub fields_of : ℕ → Fields
fields_of t =
    let (year, day_of_year) = year_of (day_of t) in
    let (month, day) = split_month (month_lengths year) day_of_year in
    record {
      year = year;
      month = month;
      day = day;
      hour = t / 3600000000 % 24;
      minute = t / 60000000 % 60;
      second = t / 1000000 % 60;
      microsecond = t % 1000000;
    }

unfoldable pub instant_of : Fields → ℕ
instant_of f =
    ((days_before_year f.year + days_before_month (month_lengths f.year) f.month + f.day) * 86400
        + f.hour * 3600
        + f.minute * 60
        + f.second)
      * 1000000
    + f.microsecond

-- The fraction of a second is left out where it is zero.
unfoldable pub fraction : ℕ → Text
unfolding six
fraction microsecond = if microsecond == 0 then [] else b'.' ∷ six microsecond

unfoldable pub isoformat : ℕ → Text
isoformat t =
    let f = fields_of t in
    two ((1970 + f.year) / 100)
    ++ two ((1970 + f.year) % 100)
    ++ b'-' ∷ two (suc f.month)
    ++ b'-' ∷ two (suc f.day)
    ++ b'T' ∷ two f.hour
    ++ b':' ∷ two f.minute
    ++ b':' ∷ two f.second
    ++ fraction f.microsecond
    ++ codes "+00:00"

unfoldable pub read_fraction : Text → Option (ℕ × Text)
read_fraction [] = some (0, [])
read_fraction (c ∷ s) =
    if c == b'.'
    then (do
      (high, s) ← read_two s
      (middle, s) ← read_two s
      (low, s) ← read_two s
      some (high * 10000 + middle * 100 + low, s))
    else some (0, c ∷ s)

abbrev in_range : Fields → Bool
in_range f =
    ltb f.month 12
    && ltb f.day (length_at (month_lengths f.year) f.month)
    && ltb f.hour 24
    && ltb f.minute 60
    && ltb f.second 60

-- The fields as they are written: the year in full, the month and the day from 1.
unfoldable pub checked : (year month day hour minute second microsecond : ℕ) → Option ℕ
checked year month day hour minute second microsecond =
    let f : Fields = record {
      year = year - 1970;
      month = month - 1;
      day = day - 1;
      hour = hour;
      minute = minute;
      second = second;
      microsecond = microsecond;
    } in
    if leb 1970 year && leb 1 month && leb 1 day && in_range f then some (instant_of f) else none

-- An instant at the head of a text, and what follows it.
unfoldable pub read_isoformat : Text → Option (ℕ × Text)
read_isoformat s = do
  (century, s) ← read_two s
  (year, s) ← read_two s
  s ← read_char b'-' s
  (month, s) ← read_two s
  s ← read_char b'-' s
  (day, s) ← read_two s
  s ← read_char b'T' s
  (hour, s) ← read_two s
  s ← read_char b':' s
  (minute, s) ← read_two s
  s ← read_char b':' s
  (second, s) ← read_two s
  (microsecond, s) ← read_fraction s
  s ← read_char b'+' s
  (offset_hours, s) ← read_two s
  s ← read_char b':' s
  (offset_minutes, s) ← read_two s
  t ← checked (century * 100 + year) month day hour minute second microsecond
  if offset_hours == 0 && offset_minutes == 0 then some (t, s) else none
