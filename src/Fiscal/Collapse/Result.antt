-- ===== src/Fiscal/Collapse/Result.antt =====
-- `collapse_fiscal_duplicates` as a whole: what its callers, the read paths, rely on.
use mathlib.Core.List.{Memᴰ}
use fincal.Prelude.{
  ◌≤◌, ◌≡◌, ◌⊎◌, inl, inr, true, false, Option, none, some, List, [], ◌∷◌, arith, count, Bool-cases,
}
use fincal.Prelude.Interfaces.{nat_eq, list_eq, pair_eq, ◌<?◌, lex_head, nat_order, list_order}
use fincal.Prelude.Int.{int_eq}
use fincal.Prelude.Sort
use fincal.Calendar.{Date, date_eq, isoformat}
use fincal.Prelude.Text.{Text, or_empty}
use fincal.Fiscal.Row.{Row, DateCell}
use fincal.Fiscal.Identity.{FiscalKey, fiscal_key, is_disclosure, report_date_of}
use fincal.Fiscal.Authority.{outranks, sort_key}
use fincal.Fiscal.Scan.Members.{scan-mem}
use fincal.Fiscal.Scan.Counts.{has_key, count-scan_le}
use fincal.Fiscal.Collapse.{
  DateKey, same_date_key, same_date_choice, collapse_periods, collapse_same_date,
  collapse_fiscal_duplicates,
}
use fincal.Fiscal.Collapse.Periods.{
  collapse_periods-mem, count-collapse_periods, collapse_periods-rival,
}
use fincal.Fiscal.Collapse.Announced.{IsAnnounced}
use fincal.Fiscal.Collapse.SameDate.{collapse_same_date-keeps}

-- For every fiscal identity the output holds at most one row of it, whatever rows come in.
pub collapse-one_per_period :
    (rows : List Row) (k : FiscalKey)
    → count (has_key fiscal_key k) (collapse_fiscal_duplicates rows) ≤ 1
unfolding collapse_fiscal_duplicates
collapse-one_per_period rows k = omega (
  arith,
  Sort.count-sorted sort_key (has_key fiscal_key k) (collapse_same_date (collapse_periods rows)),
  count-scan_le same_date_key same_date_choice (has_key fiscal_key k) (collapse_periods rows),
  count-collapse_periods k rows,
)

-- The day of a row as a text; a row without a date has the empty one.
abbrev pub day_text : Option Date → Text
day_text none = []
day_text (some d) = isoformat d

abbrev pub day_of : Row → Text
day_of row = day_text (report_date_of row DateCell.missing)

abbrev pub market_of : Row → Text
market_of row = or_empty row.market

-- The row `y` may stand behind `x`: it has a later day, or on the same day a greater market, or in
-- the same market a symbol that is not smaller.
pub data Follows (x y : Row) : Type 0 where
  later_day : (day_of x <? day_of y) ≡ true → Follows x y
  greater_market : day_of x ≡ day_of y → (market_of x <? market_of y) ≡ true → Follows x y
  same_market :
      day_of x ≡ day_of y
      → market_of x ≡ market_of y
      → (or_empty y.symbol <? or_empty x.symbol) ≡ false
      → Follows x y

-- Each row may stand behind the one in front of it.
abbrev pub IsListed : List Row → Type 0
IsListed [] = Unit
IsListed (x ∷ []) = Unit
IsListed (x ∷ y ∷ rows) = Follows x y × IsListed (y ∷ rows)

last_of : (s t : Text) → (t ∷ [] <? s ∷ []) ≡ false → (t <? s) ≡ false
last_of s t h = elim (Bool-cases (t <? s)) [ inl less ↦ cc (rw less at h) | inr more ↦ more ]

sort_key-Follows : (x y : Row) → (sort_key y <? sort_key x) ≡ false → Follows x y
unfolding sort_key
sort_key-Follows x y h =
    elim (lex_head (day_of x) (day_of y) (market_of x ∷ or_empty x.symbol ∷ [])
      (market_of y ∷ or_empty y.symbol ∷ []) h) [
        | inl day ↦ later_day day
        | inr (same_day, h') ↦
            elim (lex_head (market_of x) (market_of y) (or_empty x.symbol ∷ [])
              (or_empty y.symbol ∷ []) h') [
                | inl market ↦ greater_market same_day market
                | inr (same, h'') ↦
                    same_market same_day same (last_of (or_empty x.symbol) (or_empty y.symbol) h'')
              ]
      ]

sorted-IsListed : (rows : List Row) → Sort.IsSorted sort_key rows → IsListed rows
sorted-IsListed [] s = tt
sorted-IsListed (x ∷ []) s = tt
sorted-IsListed (x ∷ y ∷ rows) s = (sort_key-Follows x y s.0, sorted-IsListed (y ∷ rows) s.1)

-- Every row of the output is one of the input rows, unchanged, and the output is in the order of
-- report date, market and symbol, compared as texts: behind a row stands one with a greater ISO
-- date, or of the same date with a greater market, or of the same two with a symbol that is not
-- smaller. A missing date, market or symbol counts as the empty text.
pub collapse-in_order :
    (rows : List Row)
    → ((x : Row) → Memᴰ x (collapse_fiscal_duplicates rows) → Memᴰ x rows)
      × IsListed (collapse_fiscal_duplicates rows)
unfolding collapse_fiscal_duplicates
collapse-in_order rows = (
  λ x m. collapse_periods-mem rows x (
      scan-mem same_date_key same_date_choice (collapse_periods rows) x
        ((Sort.sorted-mem sort_key (collapse_same_date (collapse_periods rows)) x).0 m)),
  sorted-IsListed (collapse_fiscal_duplicates rows)
      (Sort.sorted-IsSorted sort_key (collapse_same_date (collapse_periods rows))),
)

-- The period of every input row is represented: some input row `w` of the same fiscal identity is
-- not outranked by it, and either `w` is in the output, or `w` is a disclosure and a release is in
-- the output instead that has the same symbol, market and report date, none of them missing or
-- empty.
pub collapse-represents :
    (rows : List Row) (x : Row) (k : FiscalKey)
    → Memᴰ x rows
    → fiscal_key x ≡ some k
    → (w : Row) × Memᴰ w rows
      × (fiscal_key w ≡ some k)
      × (outranks x w ≡ false)
      × (Memᴰ w (collapse_fiscal_duplicates rows)
          ⊎ ((v : Row) × Memᴰ v (collapse_fiscal_duplicates rows)
              × (is_disclosure w.report_type ≡ true)
              × (is_disclosure v.report_type ≡ false)
              × ((day : DateKey) × IsAnnounced day v × IsAnnounced day w)))
unfolding collapse_fiscal_duplicates
collapse-represents rows x k m kx =
    let (w, mw, kw, b) = collapse_periods-rival rows x k m kx in
    let ys = collapse_same_date (collapse_periods rows) in
    (
      w,
      collapse_periods-mem rows w mw,
      kw,
      b,
      elim (collapse_same_date-keeps (collapse_periods rows) w mw) [
        | inl there ↦ inl ((Sort.sorted-mem sort_key ys w).1 there)
        | inr (v, mv, dw, rv, same) ↦ inr (v, (Sort.sorted-mem sort_key ys v).1 mv, dw, rv, same)
      ],
    )
