-- ===== src/Calendar/Ordinals.antt =====
-- The ordinals of dates grow with the dates.
use Prim.Native.Nat.{zero, suc}
use fincal.Prelude.{ℕ, ◌+◌, ◌-◌, ◌≤◌, ◌<◌, ◌≡◌, ◌⊎◌, inl, inr, true, arith}
use fincal.Calendar.{
  Date, IsValid, date_lt, to_ordinal, days_before_year, days_before_month, days_in_month, leap_day,
}

days_before_year_step :
    (y : ℕ) → 1 ≤ y → days_before_year (y + 1) ≡ days_before_year y + 365 + leap_day y
unfolding days_before_year leap_day
days_before_year_step y h = ground arith

days_before_month_step :
    (y m : ℕ)
    → 1 ≤ m
    → m < 12
    → days_before_month y (m + 1) ≡ days_before_month y m + days_in_month y m
unfolding days_before_month days_in_month
days_before_month_step y m h k = ground arith

-- The last day of a month lies in its year.
month_end_le : (y m : ℕ) → m ≤ 12 → days_before_month y m + days_in_month y m ≤ 365 + leap_day y
unfolding days_before_month days_in_month
month_end_le y m h = ground arith

-- A month that begins later begins after the last day of the earlier one.
days_before_month_mono :
    (y m k n : ℕ)
    → m + k + 1 ≡ n
    → 1 ≤ m
    → n ≤ 12
    → days_before_month y m + days_in_month y m ≤ days_before_month y n
days_before_month_mono y m zero n e h l =
    let at : n ≡ m + 1 = omega arith in
    rw at (omega (arith, days_before_month_step y m h (omega arith)))
days_before_month_mono y m (suc k) n e h l =
    let at : n ≡ (m + k + 1) + 1 = omega arith in
    rw at (
      omega (
        arith,
        days_before_month_mono y m k (m + k + 1) (omega arith) h (omega arith),
        days_before_month_step y (m + k + 1) (omega arith) (omega arith),
      ))

days_before_year_mono :
    (y k z : ℕ) → y + k + 1 ≡ z → 1 ≤ y → days_before_year y + 365 + leap_day y ≤ days_before_year z
days_before_year_mono y zero z e h =
    let at : z ≡ y + 1 = omega arith in rw at (omega (arith, days_before_year_step y h))
days_before_year_mono y (suc k) z e h =
    let at : z ≡ (y + k + 1) + 1 = omega arith in
    rw at (
      omega (
        arith,
        days_before_year_mono y k (y + k + 1) (omega arith) h,
        days_before_year_step (y + k + 1) (omega arith),
      ))

-- How two dates differ when one is before the other.
date_lt-cases :
    (a b : Date)
    → date_lt a b ≡ true
    → (a.year < b.year)
      ⊎ ((a.year ≡ b.year) × (a.month < b.month))
      ⊎ ((a.year ≡ b.year) × (a.month ≡ b.month) × (a.day < b.day))
date_lt-cases a b h = ground arith

-- An earlier date has a smaller ordinal.
pub to_ordinal_mono :
    (a b : Date) → IsValid a → IsValid b → date_lt a b ≡ true → to_ordinal a < to_ordinal b
unfolding to_ordinal
to_ordinal_mono a b va vb h = elim (date_lt-cases a b h) [
  | inl y ↦ omega (
    arith,
    days_before_year_mono a.year (b.year - a.year - 1) b.year (omega arith) va.year_low,
    month_end_le a.year a.month va.month_high,
  )
  | inr (inl (y, m)) ↦ rw (← y) (
      omega (
        arith,
        days_before_month_mono a.year a.month (b.month - a.month - 1) b.month (omega arith)
            va.month_low vb.month_high,
      ))
  | inr (inr (y, m, d)) ↦ rw (← y, ← m) (omega arith)
]
