-- ===== src/Fiscal/Labels/Conflicts.antt =====
-- What `fiscal_label_consistent` decides.
use mathlib.Core.List.{Memᴰ}
use mathlib.Core.Path.{subst}
use mathlib.Core.Bool.{false≢true}
use fincal.Prelude.{
  ◌||◌, not, if◌then◌else◌, ap, sym, ◌∙◌, ◌≡◌, ◌↔◌, ◌⊎◌, inl, inr, refl, Bool, true, false, Option,
  none, some, List, [], ◌∷◌, ◌&&◌, arith, Bool-cases,
}
use fincal.Prelude.Interfaces.{
  ◌==◌, ◌<?◌, nat_eq, list_eq, option_eq, beq_iff, list_order, nat_order,
}
use fincal.Prelude.Int.{ℤ, int_eq, int_order}
use fincal.Prelude.Text.{Text}
use fincal.Calendar.{Date, date_lt}
use fincal.Fiscal.Row.{Row, Scalar, DateCell, truthy, to_int}
use fincal.Fiscal.Identity.{report_date_of, date_of_cell}
use fincal.Fiscal.Labels.{dates_fit, row_fits, rows_fit, fiscal_label_consistent}

-- The quarters are in one order and the dates in the other.
abbrev pub Reversed : ℤ → Date → ℤ → Date → Type 0
Reversed quarter candidate other dated =
    (((other <? quarter) ≡ true) × (date_lt candidate dated ≡ true))
    ⊎ (((quarter <? other) ≡ true) × (date_lt dated candidate ≡ true))

-- Evidence against a label: a row of the same symbol, market and fiscal year whose quarter and date
-- are in the opposite order.
pub record Contradicts (symbol market : Option Text) (year quarter : ℤ) (candidate : Date)
    (row : Row) : Type 0 where
  pub symbol_same : row.symbol ≡ symbol
  pub market_same : row.market ≡ market
  pub year_same : to_int row.fiscal_year ≡ some year
  pub other : ℤ
  pub other_quarter : to_int row.fiscal_quarter ≡ some other
  pub dated : Date
  pub dated_at : report_date_of row DateCell.missing ≡ some dated
  pub reversed : Reversed quarter candidate other dated

-- The comparisons of the loop, as truth values.
verdict_false :
    (a b c d e f : Bool)
    → (if not a || b then true else if c && d then false else not (e && f)) ≡ false
    → (a ≡ true) × (((c ≡ true) × (d ≡ true)) ⊎ ((e ≡ true) × (f ≡ true)))
verdict_false a b c d e f h = ground arith

verdict_from :
    (a b c d e f : Bool)
    → a ≡ true
    → b ≡ false
    → ((c ≡ true) × (d ≡ true)) ⊎ ((e ≡ true) × (f ≡ true))
    → (if not a || b then true else if c && d then false else not (e && f)) ≡ false
verdict_from a b c d e f p q h = ground arith

and_false : (a b : Bool) → b ≡ false → (a && b) ≡ false
and_false a b h = ground arith

differ : (q r : ℤ) → (((q <? r) ≡ true) ⊎ ((r <? q) ≡ true)) → (q == r) ≡ false
differ q r h = ground arith

module _ (year quarter : ℤ) (candidate : Date) where
  dates_unfit :
      (y q : Option ℤ) (d : Option Date)
      → dates_fit year quarter candidate y q d ≡ false
      → (o : ℤ) × (e : Date) × (y ≡ some year)
        × (q ≡ some o)
        × (d ≡ some e)
        × Reversed quarter candidate o e
  dates_unfit none q d h = cc
  dates_unfit (some y) none d h = cc
  dates_unfit (some y) (some q) none h = cc
  dates_unfit (some y) (some q) (some d) h =
      let (same, reversed) =
        verdict_false (y == year) (q == quarter) (q <? quarter) (date_lt candidate d) (quarter <? q)
          (date_lt d candidate) h in
      (q, d, ap some ((beq_iff y year).0 same), refl, refl, reversed)

  dates_unfit_from :
      (o : ℤ) (e : Date)
      → Reversed quarter candidate o e
      → dates_fit year quarter candidate (some year) (some o) (some e) ≡ false
  dates_unfit_from o e h =
      verdict_from (year == year) (o == quarter) (o <? quarter) (date_lt candidate e) (quarter <? o)
        (date_lt e candidate) ((beq_iff year year).1 refl)
        (differ o quarter (elim h [ inl (p, _) ↦ inl p | inr (p, _) ↦ inr p ])) h

module _ (symbol market : Option Text) (year quarter : ℤ) (candidate : Date) where
  row_unfit :
      (row : Row)
      → row_fits symbol market year quarter candidate row ≡ false
      → Contradicts symbol market year quarter candidate row
  unfolding row_fits
  row_unfit row h = elim (Bool-cases (row.symbol == symbol)) [
    | inr other ↦ absurd (false≢true (sym h ∙ rw other))
    | inl s ↦ elim (Bool-cases (row.market == market)) [
      | inr other ↦ absurd (false≢true (sym h ∙ rw (s, other)))
      | inl m ↦
          let (o, e, ey, eq, ed, reversed) =
            dates_unfit year quarter candidate (to_int row.fiscal_year) (to_int row.fiscal_quarter)
              (report_date_of row DateCell.missing) (rw (s, m) at h) in
          record {
            symbol_same = (beq_iff row.symbol symbol).0 s;
            market_same = (beq_iff row.market market).0 m;
            year_same = ey;
            other = o;
            other_quarter = eq;
            dated = e;
            dated_at = ed;
            reversed = reversed;
          }
    ]
  ]

  row_unfit_from :
      (row : Row)
      → Contradicts symbol market year quarter candidate row
      → row_fits symbol market year quarter candidate row ≡ false
  unfolding row_fits
  row_unfit_from row c =
      rw
        (
          (beq_iff row.symbol symbol).1 c.symbol_same,
          (beq_iff row.market market).1 c.market_same,
          c.year_same,
          c.other_quarter,
          c.dated_at,
        )
        (dates_unfit_from year quarter candidate c.other c.dated c.reversed)

  rows_unfit :
      (rows : List Row)
      → rows_fit symbol market year quarter candidate rows ≡ false
      → (row : Row) × Memᴰ row rows × Contradicts symbol market year quarter candidate row
  unfolding rows_fit
  rows_unfit [] h = cc
  rows_unfit (row ∷ rows) h =
      elim (Bool-cases (row_fits symbol market year quarter candidate row)) [
        | inr bad ↦ (row, Memᴰ.head refl, row_unfit row bad)
        | inl fits ↦ let (r, m, c) = rows_unfit rows (rw fits at h) in (r, Memᴰ.tail m, c)
      ]

  rows_unfit_from :
      (rows : List Row) (row : Row)
      → Memᴰ row rows
      → Contradicts symbol market year quarter candidate row
      → rows_fit symbol market year quarter candidate rows ≡ false
  unfolding rows_fit
  rows_unfit_from [] row m c = elim m [ ]
  rows_unfit_from (x ∷ rows) row (Memᴰ.head p) c =
      rw (row_unfit_from x (subst (Contradicts symbol market year quarter candidate) p c))
  rows_unfit_from (x ∷ rows) row (Memᴰ.tail m) c =
      and_false (row_fits symbol market year quarter candidate x)
        (rows_fit symbol market year quarter candidate rows) (rows_unfit_from rows row m c)

  -- Where symbol and market are given, a label with a readable year, quarter and date is refused
  -- exactly when one of the existing rows contradicts it: a row of the same symbol, market and fiscal year whose quarter is lower and
  -- whose date is later, or whose quarter is higher and whose date is earlier.
  pub label-refused_iff :
      (fiscal_year fiscal_quarter : Scalar) (report_date : DateCell) (rows : List Row)
      → truthy symbol ≡ true
      → truthy market ≡ true
      → to_int fiscal_year ≡ some year
      → to_int fiscal_quarter ≡ some quarter
      → date_of_cell report_date ≡ some candidate
      → (fiscal_label_consistent symbol market fiscal_year fiscal_quarter report_date rows ≡ false)
        ↔ ((row : Row) × Memᴰ row rows × Contradicts symbol market year quarter candidate row)
  unfolding fiscal_label_consistent
  label-refused_iff fy fq rd rows ts tm hy hq hd =
      rw (hy, hq, hd, ts, tm)
        (rows_unfit rows, λ found. rows_unfit_from rows found.0 found.1 found.2)
