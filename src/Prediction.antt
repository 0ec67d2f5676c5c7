-- ===== src/Prediction.antt =====
-- scripts/predict_earnings.py: the choice of the date that is predicted for a quarter. A sample is
-- a confirmed report of the same quarter; the fields of a `date` are natural numbers, the offset of
-- its year against its fiscal year is an integer.
pub mod Weekday
pub mod Choice
use fincal.Prelude.{
  ℕ, zero, suc, ◌+◌, ◌-◌, ◌*◌, ◌/◌, ◌%◌, Bool, true, false, Option, none, some, List, [], ◌∷◌, ◌&&◌,
  ◌||◌, not, ltb, leb, eqb, if◌then◌else◌, map, keep, length, get_elem?,
}
use fincal.Prelude.Interfaces.{nat_order, list_order}
use fincal.Prelude.Int.{ℤ, pos, negsuc, neg, ◌+ℤ◌, int_order}
use fincal.Prelude.Sort
use fincal.Calendar.{Date, to_ordinal, days_in_month}

-- The next fiscal quarter.
unfoldable pub next_quarter : ℕ → ℕ → ℕ × ℕ
next_quarter fy fq = if ltb fq 4 then (fy, fq + 1) else (fy + 1, 1)

pub record Sample : Type 0 where
  pub year : ℕ
  pub month : ℕ
  pub day : ℕ
  pub year_offset : ℤ

pub record DateCandidate : Type 0 where
  pub date : Date
  pub sample_year : ℕ

abbrev pub min : ℕ → ℕ → ℕ
min a b = if leb a b then a else b

abbrev pub max : ℕ → ℕ → ℕ
max a b = if leb a b then b else a

-- The constructor of `date`, `none` for its ValueError.
abbrev pub make_date : ℤ → ℕ → ℕ → Option Date
make_date (negsuc n) month day = none
make_date (pos year) month day =
    if (leb 1 year && leb year 9999)
      && ((leb 1 month && leb month 12) && (leb 1 day && leb day (days_in_month year month)))
    then some (record { year = year; month = month; day = day })
    else none

-- `calendar.monthrange(year, month)[1]` of a month from 1 to 12. A negative year has any length,
-- since no date has it.
abbrev pub month_length : ℤ → ℕ → ℕ
month_length (negsuc n) month = days_in_month 1 month
month_length (pos year) month = days_in_month year month

unfoldable pub shifted_sample_date : Sample → ℕ → Option Date
shifted_sample_date sample target_fy =
    let year = pos target_fy +ℤ sample.year_offset in
    make_date year sample.month (min sample.day (month_length year sample.month))

-- `d.weekday()`: the first day of the calendar was a Monday, which is 0.
unfoldable pub weekday : Date → ℕ
weekday d = (to_ordinal d + 6) % 7

-- Membership in WEEKEND_DAYS.
unfoldable pub is_weekend : Date → Bool
unfolding weekday
is_weekend d = eqb (weekday d) 5 || eqb (weekday d) 6

-- A move by one or two days within the month.
abbrev pub plus_days : ℕ → Date → Date
plus_days n d = record d { day = d.day + n }

abbrev pub minus_days : ℕ → Date → Date
minus_days n d = record d { day = d.day - n }

-- The day before is in the month, and the day after is.
abbrev pub has_before : Date → Bool
has_before d = ltb 1 d.day

abbrev pub has_after : Date → Bool
has_after d = ltb d.day (days_in_month d.year d.month)

unfoldable pub nearest_weekday : Date → Date
unfolding weekday
nearest_weekday d =
    if eqb (weekday d) 5
    then (if has_before d then minus_days 1 d else plus_days 2 d)
    else if eqb (weekday d) 6
    then (if has_after d then plus_days 1 d else minus_days 2 d)
    else d

abbrev pub or_default {ℓ} : {A : Type ℓ} → A → Option A → A
or_default d none = d
or_default d (some x) = x

-- The two middle elements of a sorted list, the same one twice if its length is odd.
abbrev pub middle {ℓ} : {A : Type ℓ} → A → List A → A × A
middle d xs =
    (or_default d (get_elem? xs ((length xs - 1) / 2)), or_default d (get_elem? xs (length xs / 2)))

-- `int(statistics.median(xs))`
unfoldable pub median_ℕ : List ℕ → ℕ
median_ℕ xs = let (a, b) = middle 0 (Sort.sorted (λ (x : ℕ). x) xs) in (a + b) / 2

-- Half of an integer, towards zero.
abbrev pub half : ℤ → ℤ
half (pos n) = pos (n / 2)
half (negsuc n) = neg (pos (suc n / 2))

unfoldable pub median_ℤ : List ℤ → ℤ
median_ℤ xs = let (a, b) = middle (pos 0) (Sort.sorted (λ (x : ℤ). x ∷ []) xs) in half (a +ℤ b)

-- The constructor raises outside of the years 1 to 9999.
unfoldable pub expected_point : List Sample → ℕ → Option Date
unfolding median_ℕ median_ℤ
expected_point samples target_fy =
    let month = median_ℕ (map (λ s. s.month) samples) in
    let day = median_ℕ (map (λ s. s.day) samples) in
    let year = pos target_fy +ℤ median_ℤ (map (λ s. s.year_offset) samples) in
    make_date year month (min (max day 1) (month_length year month))

-- `abs((a - b).days)`
abbrev pub days_between : Date → Date → ℕ
days_between a b = (to_ordinal a - to_ordinal b) + (to_ordinal b - to_ordinal a)

abbrev pub rank : Date → DateCandidate → List ℤ
rank anchor c = pos (days_between c.date anchor) ∷ neg (pos c.sample_year) ∷ []

abbrev pub drop_first {ℓ} : {A : Type ℓ} → ℕ → List A → List A
drop_first zero xs = xs
drop_first (suc n) [] = []
drop_first (suc n) (x ∷ xs) = drop_first n xs

-- The last RECENT_SAMPLE_LIMIT samples by year.
unfoldable pub recent_samples : List Sample → List Sample
recent_samples samples =
    let ordered = Sort.sorted (λ s. s.year) samples in drop_first (length ordered - 4) ordered

abbrev pub add_candidate : Sample → Option Date → List DateCandidate → List DateCandidate
add_candidate sample none cs = cs
add_candidate sample (some d) cs = record { date = d; sample_year = sample.year } ∷ cs

unfoldable pub candidates : ℕ → List Sample → List DateCandidate
unfolding shifted_sample_date
candidates target_fy [] = []
candidates target_fy (sample ∷ samples) =
    add_candidate sample (shifted_sample_date sample target_fy) (candidates target_fy samples)

-- The best candidate, and on a weekend another one of its month or a day beside it.
abbrev pub from_pool : Date → List DateCandidate → Date
from_pool chosen [] = nearest_weekday chosen
from_pool chosen (c ∷ pool) = c.date

abbrev pub settle_date : Date → List DateCandidate → Date
settle_date chosen ranked =
    if is_weekend chosen
    then from_pool chosen
        (keep (λ c. eqb c.date.month chosen.month && not (is_weekend c.date)) ranked)
    else chosen

abbrev pub choose_date : List DateCandidate → Option Date
choose_date [] = none
choose_date (c ∷ ranked) = some (settle_date c.date (c ∷ ranked))

abbrev pub rank_candidates : Option Date → List DateCandidate → Option Date
rank_candidates none cs = none
rank_candidates (some anchor) cs = choose_date (Sort.sorted (rank anchor) cs)

-- `none` also where the source raises: where the anchor has no valid year. The months of the
-- samples are those of dates.
unfoldable pub pick_predicted_date : List Sample → ℕ → Option Date
unfolding recent_samples candidates expected_point nearest_weekday is_weekend
pick_predicted_date samples target_fy =
    let recent = recent_samples samples in
    rank_candidates (expected_point recent target_fy) (candidates target_fy recent)
