-- ===== src/Prediction/Choice.antt =====
-- What `pick_predicted_date` promises of the date that it picks.
use mathlib.Core.Path.{subst}
use mathlib.Core.List.Memᴰ
use mathlib.Core.List.{Memᴰ}
use fincal.Prelude.{
  ℕ, zero, suc, ◌-◌, ◌≡◌, refl, ap, sym, ◌∙◌, Bool, true, false, Option, none, some, List, [], ◌∷◌,
  ◌&&◌, not, leb, eqb, keep, length, arith, inl, inr, Bool-cases, and_parts, leb→le,
}
use fincal.Prelude.Interfaces.{nat_order, list_order}
use fincal.Prelude.Int.{ℤ, pos, negsuc, ◌+ℤ◌, int_order}
use fincal.Prelude.Sort
use fincal.Calendar.{Date, IsValid, days_in_month}
use fincal.Prediction.{
  Sample, DateCandidate, make_date, month_length, min, shifted_sample_date, is_weekend,
  recent_samples, drop_first, candidates, add_candidate, expected_point, rank, from_pool,
  settle_date, choose_date, rank_candidates, pick_predicted_date,
}
use fincal.Prediction.Weekday.{nearest-Working}

-- A month that one of the samples has.
pub record Used (month : ℕ) (samples : List Sample) : Type 0 where
  pub sample : Sample
  pub there : Memᴰ sample samples
  pub same : sample.month ≡ month

abbrev in_range : ℕ → ℕ → ℕ → Bool
in_range y m d =
    (leb 1 y && leb y 9999) && ((leb 1 m && leb m 12) && (leb 1 d && leb d (days_in_month y m)))

in_range-IsValid :
    (y m d : ℕ) → in_range y m d ≡ true → IsValid (record { year = y; month = m; day = d })
in_range-IsValid y m d h =
    let (years, rest) =
      and_parts (leb 1 y && leb y 9999)
        ((leb 1 m && leb m 12) && (leb 1 d && leb d (days_in_month y m))) h in
    let (months, days) =
      and_parts (leb 1 m && leb m 12) (leb 1 d && leb d (days_in_month y m)) rest in
    let (ya, yb) = and_parts (leb 1 y) (leb y 9999) years in
    let (ma, mb) = and_parts (leb 1 m) (leb m 12) months in
    let (da, db) = and_parts (leb 1 d) (leb d (days_in_month y m)) days in
    record {
      year_low = leb→le 1 y ya;
      year_high = leb→le y 9999 yb;
      month_low = leb→le 1 m ma;
      month_high = leb→le m 12 mb;
      day_low = leb→le 1 d da;
      day_high = leb→le d (days_in_month y m) db;
    }

make_date-IsValid :
    (y : ℤ) (m d : ℕ) (r : Date) → make_date y m d ≡ some r → IsValid r × (m ≡ r.month)
make_date-IsValid (negsuc n) m d r h = cc
make_date-IsValid (pos y) m d r h = elim (Bool-cases (in_range y m d)) [
  | inr bad ↦ cc (rw bad at h)
  | inl fine ↦
      let made : Date = record { year = y; month = m; day = d } in
      let shown : Path (Option Date) (some made) (some r) = rw fine at h in
      let e : made ≡ r = cc in
      subst (λ x. IsValid x × (m ≡ x.month)) e (in_range-IsValid y m d fine, refl)
]

-- A candidate is a valid date in the month of its sample.
abbrev Good : List Sample → DateCandidate → Type 0
Good samples c = IsValid c.date × Used c.date.month samples

Good-cons : (s : Sample) (ss : List Sample) (c : DateCandidate) → Good ss c → Good (s ∷ ss) c
Good-cons s ss c (v, u) =
    (v, record { sample = u.sample; there = Memᴰ.tail u.there; same = u.same })

shifted-IsValid :
    (s : Sample) (fy : ℕ) (d : Date)
    → shifted_sample_date s fy ≡ some d
    → IsValid d × (s.month ≡ d.month)
unfolding shifted_sample_date
shifted-IsValid s fy d h =
    make_date-IsValid (pos fy +ℤ s.year_offset) s.month
      (min s.day (month_length (pos fy +ℤ s.year_offset) s.month)) d h

add-Good :
    (s : Sample) (ss : List Sample) (o : Option Date) (cs : List DateCandidate) (c : DateCandidate)
    → ((d : Date) → o ≡ some d → IsValid d × (s.month ≡ d.month))
    → (Memᴰ c cs → Good ss c)
    → Memᴰ c (add_candidate s o cs)
    → Good (s ∷ ss) c
add-Good s ss none cs c valid good m = Good-cons s ss c (good m)
add-Good s ss (some d) cs c valid good (Memᴰ.tail m) = Good-cons s ss c (good m)
add-Good s ss (some d) cs c valid good (Memᴰ.head e) =
    let (v, month) = valid d refl in
    subst (λ x. Good (s ∷ ss) x) (sym e)
      (v, record { sample = s; there = Memᴰ.head refl; same = month })

candidates-Good :
    (fy : ℕ) (ss : List Sample) (c : DateCandidate) → Memᴰ c (candidates fy ss) → Good ss c
unfolding candidates
candidates-Good fy [] c m = elim m [ ]
candidates-Good fy (s ∷ ss) c m =
    add-Good s ss (shifted_sample_date s fy) (candidates fy ss) c (shifted-IsValid s fy)
      (candidates-Good fy ss c) m

keep-mem :
    {A : Type 0} (p : A → Bool) (xs : List A) (x : A)
    → Memᴰ x (keep p xs)
    → Memᴰ x xs × (p x ≡ true)
keep-mem p [] x m = elim m [ ]
keep-mem p (y ∷ ys) x m = elim (Bool-cases (p y)) [
  | inr out ↦ let (there, holds) = keep-mem p ys x (rw out at m) in (Memᴰ.tail there, holds)
  | inl fits ↦ elim (Memᴰ.cases_cons (rw fits at m)) [
    | inl e ↦ (Memᴰ.head e, ap p e ∙ fits)
    | inr later ↦ let (there, holds) = keep-mem p ys x later in (Memᴰ.tail there, holds)
  ]
]

drop_first-mem : {A : Type 0} (n : ℕ) (xs : List A) (x : A) → Memᴰ x (drop_first n xs) → Memᴰ x xs
drop_first-mem zero xs x m = m
drop_first-mem (suc n) [] x m = m
drop_first-mem (suc n) (y ∷ ys) x m = Memᴰ.tail (drop_first-mem n ys x m)

recent-mem : (ss : List Sample) (s : Sample) → Memᴰ s (recent_samples ss) → Memᴰ s ss
unfolding recent_samples
recent-mem ss s m = (Sort.sorted-mem (λ (t : Sample). t.year) ss s).0 (
    drop_first-mem (length (Sort.sorted (λ (t : Sample). t.year) ss) - 4)
      (Sort.sorted (λ (t : Sample). t.year) ss) s m)

-- What is promised of a picked date.
pub record Promised (d : Date) (samples : List Sample) : Type 0 where
  pub working : is_weekend d ≡ false
  pub month_used : Used d.month samples

pool-Promised :
    (ss : List Sample) (chosen : Date) (pool : List DateCandidate)
    → IsValid chosen
    → Used chosen.month ss
    → ((c : DateCandidate) → Memᴰ c pool → Good ss c × (is_weekend c.date ≡ false))
    → Promised (from_pool chosen pool) ss
pool-Promised ss chosen [] v u all_good =
    let near = nearest-Working chosen v in
    record { working = near.weekend; month_used = subst (λ m. Used m ss) (sym near.month) u }
pool-Promised ss chosen (c ∷ pool) v u all_good =
    let (good, free) = all_good c (Memᴰ.head refl) in record { working = free; month_used = good.1 }

right_false : (b c : Bool) → (b && not c) ≡ true → c ≡ false
right_false b c h = ground arith

settle-Promised :
    (ss : List Sample) (chosen : DateCandidate) (ranked : List DateCandidate)
    → Good ss chosen
    → ((c : DateCandidate) → Memᴰ c ranked → Good ss c)
    → Promised (settle_date chosen.date ranked) ss
settle-Promised ss chosen ranked g all_good = elim (Bool-cases (is_weekend chosen.date)) [
  | inr free ↦ rw free (record { working = free; month_used = g.1 })
  | inl weekend ↦
      let fits =
        λ (c : DateCandidate). eqb c.date.month chosen.date.month && not (is_weekend c.date) in
      rw weekend (
        pool-Promised ss chosen.date (keep fits ranked) g.0 g.1 (λ c m.
          let (there, holds) = keep-mem fits ranked c m in
          (
            all_good c there,
            right_false (eqb c.date.month chosen.date.month) (is_weekend c.date) holds,
          )))
]

choose-Promised :
    (ss : List Sample) (ranked : List DateCandidate) (d : Date)
    → ((c : DateCandidate) → Memᴰ c ranked → Good ss c)
    → choose_date ranked ≡ some d
    → Promised d ss
choose-Promised ss [] d good h = cc
choose-Promised ss (c ∷ ranked) d good h =
    let chosen = settle_date c.date (c ∷ ranked) in
    let e : chosen ≡ d = cc in
    subst (λ x. Promised x ss) e (settle-Promised ss c (c ∷ ranked) (good c (Memᴰ.head refl)) good)

rank-Promised :
    (ss : List Sample) (o : Option Date) (cs : List DateCandidate) (d : Date)
    → ((c : DateCandidate) → Memᴰ c cs → Good ss c)
    → rank_candidates o cs ≡ some d
    → Promised d ss
rank-Promised ss none cs d good h = cc
rank-Promised ss (some anchor) cs d good h =
    choose-Promised ss (Sort.sorted (rank anchor) cs) d
      (λ c m. good c ((Sort.sorted-mem (rank anchor) cs c).0 m)) h

Good-recent : (ss : List Sample) (c : DateCandidate) → Good (recent_samples ss) c → Good ss c
Good-recent ss c (v, u) =
    (v, record { sample = u.sample; there = recent-mem ss u.sample u.there; same = u.same })

-- The picked date is no day of a weekend, and its month is one in which the company has reported
-- that quarter.
pub pick-Promised :
    (samples : List Sample) (target_fy : ℕ) (d : Date)
    → pick_predicted_date samples target_fy ≡ some d
    → Promised d samples
unfolding pick_predicted_date
pick-Promised samples fy d h =
    let recent = recent_samples samples in
    rank-Promised samples (expected_point recent fy) (candidates fy recent) d
      (λ c m. Good-recent samples c (candidates-Good fy recent c m)) h
