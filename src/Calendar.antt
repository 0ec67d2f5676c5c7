-- ===== src/Calendar.antt =====
-- Calendar days, as Python's `datetime.date` (the proleptic Gregorian calendar) has them: the
-- program compares, prints and counts them, and reads their year, month and day.
pub mod Ordinals
use fincal.Prelude.{
  ℕ, ◌+◌, ◌-◌, ◌*◌, ◌/◌, ◌%◌, ◌≤◌, ◌≡◌, Bool, true, arith, List, [], ◌∷◌, ◌&&◌, ◌||◌, not, eqb, ltb,
  if◌then◌else◌,
}
use fincal.Prelude.Interfaces.{Eq, lex, nat_order}
use fincal.Prelude.Text.{Text, digit_char}

pub record Date : Type 0 where
  pub year : ℕ
  pub month : ℕ
  pub day : ℕ

abbrev pub fields : Date → List ℕ
fields d = d.year ∷ d.month ∷ d.day ∷ []

abbrev pub date_beq : Date → Date → Bool
date_beq a b = eqb a.year b.year && (eqb a.month b.month && eqb a.day b.day)

pub date_beq_sound : (a b : Date) → date_beq a b ≡ true → a ≡ b
date_beq_sound a b h = ground arith

pub date_beq_refl : (a : Date) → date_beq a a ≡ true
date_beq_refl a = ground arith

instance abbrev pub date_eq : Eq Date
date_eq = record { beq = date_beq; beq_sound = date_beq_sound; beq_refl = date_beq_refl }

-- `a < b` of two dates.
abbrev pub date_lt : Date → Date → Bool
date_lt a b = lex (fields a) (fields b)

unfoldable pub is_leap : ℕ → Bool
is_leap y = eqb (y % 4) 0 && (not (eqb (y % 100) 0) || eqb (y % 400) 0)

unfoldable pub leap_day : ℕ → ℕ
unfolding is_leap
leap_day y = if is_leap y then 1 else 0

-- The length of a month.
unfoldable pub days_in_month : ℕ → ℕ → ℕ
days_in_month y m =
    if eqb m 2
    then 28 + leap_day y
    else if eqb m 4 || eqb m 6 || eqb m 9 || eqb m 11
    then 30
    else 31

-- The days of the year before a month, February counted with 28.
unfoldable pub days_before_month : ℕ → ℕ → ℕ
days_before_month y m =
    if ltb m 2
    then 0
    else if ltb m 3
    then 31
    else if ltb m 4
    then 59 + leap_day y
    else if ltb m 5
    then 90 + leap_day y
    else if ltb m 6
    then 120 + leap_day y
    else if ltb m 7
    then 151 + leap_day y
    else if ltb m 8
    then 181 + leap_day y
    else if ltb m 9
    then 212 + leap_day y
    else if ltb m 10
    then 243 + leap_day y
    else if ltb m 11
    then 273 + leap_day y
    else if ltb m 12
    then 304 + leap_day y
    else 334 + leap_day y

unfoldable pub days_before_year : ℕ → ℕ
days_before_year y = (y - 1) * 365 + (y - 1) / 4 - (y - 1) / 100 + (y - 1) / 400

-- `d.toordinal()`: 1 is the first of January of the year 1.
unfoldable pub to_ordinal : Date → ℕ
to_ordinal d = days_before_year d.year + days_before_month d.year d.month + d.day

-- What the constructor of `date` checks.
pub record IsValid (d : Date) : Type 0 where
  pub year_low : 1 ≤ d.year
  pub year_high : d.year ≤ 9999
  pub month_low : 1 ≤ d.month
  pub month_high : d.month ≤ 12
  pub day_low : 1 ≤ d.day
  pub day_high : d.day ≤ days_in_month d.year d.month

abbrev two_digits : ℕ → Text → Text
two_digits n rest = digit_char (n / 10) ∷ digit_char n ∷ rest

-- `d.isoformat()`, the year in four digits.
unfoldable pub isoformat : Date → Text
isoformat d =
    digit_char (d.year / 1000)
    ∷ digit_char (d.year / 100)
    ∷ two_digits d.year (b'-' ∷ two_digits d.month (b'-' ∷ two_digits d.day []))
