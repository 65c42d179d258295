-- ===== src/Text/Calendar.antt =====
-- The calendar of `datetime`, from 1970 on: a day counted from the first of January 1970 as a year, a
-- month and a day, and back. Years count from 1970, months and days of a month from 0.
use udesa_x_users_api.Common.{
  ℕ, zero, suc, ◌+◌, ◌-◌, ◌*◌, ◌/◌, ◌%◌, ◌<◌, ◌≡◌, refl, Bool, not, ◌&&◌, ◌||◌, List, [], ◌∷◌, ◌==◌,
  nat_eq, ltb, length, All, arith, if◌then◌else◌,
}

abbrev is_leap : ℕ → Bool
is_leap y = (y % 4 == 0) && (not (y % 100 == 0) || (y % 400 == 0))

unfoldable pub days_in_year : ℕ → ℕ
days_in_year k = if is_leap (1970 + k) then 366 else 365

unfoldable pub month_lengths : ℕ → List ℕ
month_lengths k =
    31
    ∷ (if is_leap (1970 + k) then 29 else 28)
    ∷ 31
    ∷ 30
    ∷ 31
    ∷ 30
    ∷ 31
    ∷ 31
    ∷ 30
    ∷ 31
    ∷ 30
    ∷ 31
    ∷ []

unfoldable pub days_before_year : ℕ → ℕ
days_before_year zero = 0
days_before_year (suc k) = days_before_year k + days_in_year k

unfoldable pub days_before_month : List ℕ → ℕ → ℕ
days_before_month [] i = 0
days_before_month (l ∷ lengths) zero = 0
days_before_month (l ∷ lengths) (suc i) = l + days_before_month lengths i

unfoldable pub length_at : List ℕ → ℕ → ℕ
length_at [] i = 0
length_at (l ∷ lengths) zero = l
length_at (l ∷ lengths) (suc i) = length_at lengths i

-- The year that holds the day, and the day of that year.
unfoldable pub split_year : (fuel k day : ℕ) → ℕ × ℕ
split_year zero k day = (k, day)
split_year (suc fuel) k day =
    let rest = split_year fuel (suc k) (day - days_in_year k) in
    if ltb day (days_in_year k) then (k, day) else rest

unfoldable pub split_month : List ℕ → ℕ → ℕ × ℕ
split_month [] day = (0, day)
split_month (l ∷ lengths) day =
    let (i, rest) = split_month lengths (day - l) in if ltb day l then (0, day) else (suc i, rest)

-- No year is shorter than 365 days.
unfoldable pub year_of : ℕ → ℕ × ℕ
year_of day = split_year (suc (day / 365)) 0 day

split_year-days :
    (fuel k day : ℕ)
    → days_before_year (split_year fuel k day).0 + (split_year fuel k day).1
      ≡ days_before_year k + day
unfolding split_year days_before_year
split_year-days zero k day = refl
split_year-days (suc fuel) k day =
    ground (arith, split_year-days fuel (suc k) (day - days_in_year k))

days_in_year-long : (k : ℕ) → 364 < days_in_year k
unfolding days_in_year
days_in_year-long k = ground arith

split_year-inside :
    (fuel k day : ℕ)
    → day < 365 * fuel
    → (split_year fuel k day).1 < days_in_year (split_year fuel k day).0
unfolding split_year
split_year-inside zero k day h = absurd (omega (arith, h))
split_year-inside (suc fuel) k day h =
    ground (arith, days_in_year-long k, split_year-inside fuel (suc k) (day - days_in_year k))

pub year_of-days : (day : ℕ) → days_before_year (year_of day).0 + (year_of day).1 ≡ day
unfolding year_of days_before_year
year_of-days day = omega (arith, split_year-days (suc (day / 365)) 0 day)

pub year_of-inside : (day : ℕ) → (year_of day).1 < days_in_year (year_of day).0
unfolding year_of
year_of-inside day = split_year-inside (suc (day / 365)) 0 day (omega arith)

total : List ℕ → ℕ
total [] = 0
total (l ∷ lengths) = l + total lengths

pub split_month-days :
    (lengths : List ℕ) (day : ℕ)
    → days_before_month lengths (split_month lengths day).0 + (split_month lengths day).1 ≡ day
unfolding split_month days_before_month
split_month-days [] day = omega arith
split_month-days (l ∷ lengths) day = ground (arith, split_month-days lengths (day - l))

split_month-inside :
    (lengths : List ℕ) (day : ℕ)
    → day < total lengths
    → (split_month lengths day).1 < length_at lengths (split_month lengths day).0
unfolding split_month length_at total
split_month-inside [] day h = absurd (omega (arith, h))
split_month-inside (l ∷ lengths) day h = ground (arith, split_month-inside lengths (day - l))

split_month-bounded :
    (lengths : List ℕ) (day : ℕ)
    → day < total lengths
    → (split_month lengths day).0 < length lengths
unfolding split_month total
split_month-bounded [] day h = absurd (omega (arith, h))
split_month-bounded (l ∷ lengths) day h = ground (arith, split_month-bounded lengths (day - l))

total-month_lengths : (k : ℕ) → total (month_lengths k) ≡ days_in_year k
unfolding total month_lengths days_in_year
total-month_lengths k = ground arith

pub month-inside :
    (k day : ℕ)
    → day < days_in_year k
    → (split_month (month_lengths k) day).1
      < length_at (month_lengths k) (split_month (month_lengths k) day).0
month-inside k day h = split_month-inside (month_lengths k) day (rw (total-month_lengths k) h)

pub month-bounded : (k day : ℕ) → day < days_in_year k → (split_month (month_lengths k) day).0 < 12
unfolding month_lengths
month-bounded k day h = split_month-bounded (month_lengths k) day (rw (total-month_lengths k) h)

length_at-short : (lengths : List ℕ) (i : ℕ) → All (λ l. l < 32) lengths → length_at lengths i < 32
unfolding length_at
length_at-short [] i h = omega arith
length_at-short (l ∷ lengths) zero h = h.0
length_at-short (l ∷ lengths) (suc i) h = length_at-short lengths i h.1

pub month_lengths-short : (k i : ℕ) → length_at (month_lengths k) i < 32
unfolding month_lengths
month_lengths-short k i = length_at-short (month_lengths k) i (
  omega arith,
  (
    ground arith,
    (
      omega arith,
      (
        omega arith,
        (
          omega arith,
          (
            omega arith,
            (
              omega arith,
              (omega arith, (omega arith, (omega arith, (omega arith, (omega arith, tt))))),
            ),
          ),
        ),
      ),
    ),
  ),
)
