-- ===== src/Fiscal/Collapse/Periods.antt =====
-- The pass over the fiscal periods.
use mathlib.Core.List.{Memᴰ}
use fincal.Prelude.{◌≤◌, ◌≡◌, false, some, List, [], arith, count, keep}
use fincal.Prelude.Interfaces.{lt_asymm, not_lt_trans, list_order, nat_eq, list_eq, pair_eq}
use fincal.Prelude.Int.{int_order, int_eq}
use fincal.Fiscal.Row.{Row, DateCell}
use fincal.Fiscal.Identity.{FiscalKey, fiscal_key}
use fincal.Fiscal.Authority.{authority_key, outranks}
use fincal.Fiscal.Scan.Place.{scan-eq-place}
use fincal.Fiscal.Scan.Members.{scan-mem}
use fincal.Fiscal.Scan.Winners.{IsRanking, keep_better, winners_from-Rival}
use fincal.Fiscal.Scan.Counts.{has_key, lacks_key, count-winners_from, keep-winners_from}
use fincal.Fiscal.Collapse.{collapse_periods}

pub outranks-IsRanking : IsRanking outranks
unfolding outranks
outranks-IsRanking = record {
  asymm = λ a b. lt_asymm (authority_key a DateCell.missing) (authority_key b DateCell.missing);
  not_trans = λ a b c.
      not_lt_trans (authority_key a DateCell.missing) (authority_key b DateCell.missing)
        (authority_key c DateCell.missing);
}

pub collapse_periods-mem :
    (rows : List Row) (x : Row) → Memᴰ x (collapse_periods rows) → Memᴰ x rows
unfolding collapse_periods
collapse_periods-mem = scan-mem fiscal_key (keep_better outranks)

pub count-collapse_periods :
    (k : FiscalKey) (rows : List Row) → count (has_key fiscal_key k) (collapse_periods rows) ≤ 1
unfolding collapse_periods
count-collapse_periods k rows =
    rw (scan-eq-place fiscal_key (keep_better outranks) rows)
      (count-winners_from fiscal_key outranks k rows [] (omega arith))

-- Every row has a row of its period among the kept ones that it does not outrank.
pub collapse_periods-rival :
    (rows : List Row) (x : Row) (k : FiscalKey)
    → Memᴰ x rows
    → fiscal_key x ≡ some k
    → (w : Row) × Memᴰ w (collapse_periods rows) × (fiscal_key w ≡ some k) × (outranks x w ≡ false)
unfolding collapse_periods
collapse_periods-rival rows x k m kx =
    rw (scan-eq-place fiscal_key (keep_better outranks) rows)
      (winners_from-Rival fiscal_key outranks outranks-IsRanking k rows [] x m kx)

pub keep-collapse_periods :
    (rows : List Row)
    → keep (lacks_key fiscal_key) (collapse_periods rows) ≡ keep (lacks_key fiscal_key) rows
unfolding collapse_periods
keep-collapse_periods rows =
    rw (scan-eq-place fiscal_key (keep_better outranks) rows)
      (keep-winners_from fiscal_key outranks rows [])
