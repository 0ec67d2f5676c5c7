-- ===== src/Prediction/Weekday.antt =====
-- A predicted report is on a working day, in a month that the company has used for that quarter.
use fincal.Prelude.{
  ℕ, ◌+◌, ◌-◌, ◌%◌, ◌≤◌, ◌<◌, ◌≡◌, refl, true, false, eqb, arith, inl, inr, Bool-cases,
}
use fincal.Prelude.Interfaces.{list_order}
use fincal.Prelude.Int.{int_order}
use fincal.Calendar.{
  Date, IsValid, to_ordinal, days_in_month, days_before_month, days_before_year, leap_day,
}
use fincal.Prediction.{
  weekday, is_weekend, plus_days, minus_days, has_before, has_after, nearest_weekday,
}

month_has_28 : (y m : ℕ) → 28 ≤ days_in_month y m
unfolding days_in_month leap_day
month_has_28 y m = ground arith

-- The days around a Saturday and a Sunday.
friday : (o n : ℕ) → 1 < n → (o + n + 6) % 7 ≡ 5 → (o + (n - 1) + 6) % 7 ≡ 4
friday o n h e = omega (arith, h, e)

monday : (o n : ℕ) → (o + n + 6) % 7 ≡ 5 → (o + (n + 2) + 6) % 7 ≡ 0
monday o n e = omega (arith, e)

next_monday : (o n : ℕ) → (o + n + 6) % 7 ≡ 6 → (o + (n + 1) + 6) % 7 ≡ 0
next_monday o n e = omega (arith, e)

last_friday : (o n : ℕ) → 2 < n → (o + n + 6) % 7 ≡ 6 → (o + (n - 2) + 6) % 7 ≡ 4
last_friday o n h e = omega (arith, h, e)

weekday_of_eqb : (n k : ℕ) → eqb n k ≡ true → n ≡ k
weekday_of_eqb n k h = ground arith

weekday-saturday_before : (d : Date) → 1 < d.day → weekday d ≡ 5 → weekday (minus_days 1 d) ≡ 4
unfolding weekday to_ordinal
weekday-saturday_before d h e =
    friday (days_before_year d.year + days_before_month d.year d.month) d.day h e

weekday-saturday_after : (d : Date) → weekday d ≡ 5 → weekday (plus_days 2 d) ≡ 0
unfolding weekday to_ordinal
weekday-saturday_after d e =
    monday (days_before_year d.year + days_before_month d.year d.month) d.day e

weekday-sunday_after : (d : Date) → weekday d ≡ 6 → weekday (plus_days 1 d) ≡ 0
unfolding weekday to_ordinal
weekday-sunday_after d e =
    next_monday (days_before_year d.year + days_before_month d.year d.month) d.day e

weekday-sunday_before : (d : Date) → 2 < d.day → weekday d ≡ 6 → weekday (minus_days 2 d) ≡ 4
unfolding weekday to_ordinal
weekday-sunday_before d h e =
    last_friday (days_before_year d.year + days_before_month d.year d.month) d.day h e

is_weekend-weekday : (d : Date) (k : ℕ) → weekday d ≡ k → k < 5 → is_weekend d ≡ false
unfolding is_weekend
is_weekend-weekday d k e h = ground (arith, e)

not_weekend :
    (d : Date) → eqb (weekday d) 5 ≡ false → eqb (weekday d) 6 ≡ false → is_weekend d ≡ false
unfolding is_weekend
not_weekend d h k = rw (h, k) refl

-- A day that lies in the month of another, and is no day of the weekend.
pub record Working (d r : Date) : Type 0 where
  pub weekend : is_weekend r ≡ false
  pub month : r.month ≡ d.month
  pub year : r.year ≡ d.year
  pub day_low : 1 ≤ r.day
  pub day_high : r.day ≤ days_in_month d.year d.month

-- The nearest working day is a working day of the same month.
pub nearest-Working : (d : Date) → IsValid d → Working d (nearest_weekday d)
unfolding nearest_weekday
nearest-Working d v =
    let low = v.day_low in
    let high = v.day_high in
    let long = month_has_28 d.year d.month in
    elim (Bool-cases (eqb (weekday d) 5)) [
      | inl saturday ↦
          let e = weekday_of_eqb (weekday d) 5 saturday in
          elim (Bool-cases (has_before d)) [
            | inl before ↦
                rw (saturday, before)
                  (record {
                    weekend =
                        is_weekend-weekday (minus_days 1 d) 4
                          (weekday-saturday_before d (ground arith) e) (omega arith);
                    month = refl;
                    year = refl;
                    day_low = ground arith;
                    day_high = ground arith;
                  })
            | inr first ↦
                rw (saturday, first)
                  (record {
                    weekend =
                        is_weekend-weekday (plus_days 2 d) 0 (weekday-saturday_after d e)
                          (omega arith);
                    month = refl;
                    year = refl;
                    day_low = ground arith;
                    day_high = ground arith;
                  })
          ]
      | inr weekdays ↦ elim (Bool-cases (eqb (weekday d) 6)) [
        | inl sunday ↦
            let e = weekday_of_eqb (weekday d) 6 sunday in
            elim (Bool-cases (has_after d)) [
              | inl after ↦
                  rw (weekdays, sunday, after)
                    (record {
                      weekend =
                          is_weekend-weekday (plus_days 1 d) 0 (weekday-sunday_after d e)
                            (omega arith);
                      month = refl;
                      year = refl;
                      day_low = ground arith;
                      day_high = ground arith;
                    })
              | inr last ↦
                  rw (weekdays, sunday, last)
                    (record {
                      weekend =
                          is_weekend-weekday (minus_days 2 d) 4
                            (weekday-sunday_before d (ground arith) e) (omega arith);
                      month = refl;
                      year = refl;
                      day_low = ground arith;
                      day_high = ground arith;
                    })
            ]
        | inr other ↦
            rw (weekdays, other)
              (record {
                weekend = not_weekend d weekdays other;
                month = refl;
                year = refl;
                day_low = low;
                day_high = high;
              })
      ]
    ]
