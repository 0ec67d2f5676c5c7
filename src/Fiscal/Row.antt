-- ===== src/Fiscal/Row.antt =====
-- A row of the table `earnings` as app/fiscal.py reads it: a dict whose missing keys read as None.
-- A number is kept as a scaled integer, since the code of this part only asks whether it is there.
use fincal.Prelude.{ℕ, Bool, true, false, Option, none, some, not}
use fincal.Prelude.Int.{ℤ}
use fincal.Prelude.Text.{Text, is_empty, int_of}
use fincal.Calendar.{Date}

-- A cell that should hold an integer: None, an `int`, a text, or a value that `int()` refuses.
pub data Scalar : Type 0 where
  missing : Scalar
  number : ℤ → Scalar
  text : Text → Scalar
  other : Scalar

-- A text that should hold a date, by what `date.fromisoformat` makes of its first ten characters,
-- and of the first ten of the stripped text; `none` is its ValueError.
pub record IsoText : Type 0 where
  pub is_blank : Bool
  pub sliced : Option Date
  pub stripped : Option Date

pub data DateCell : Type 0 where
  missing : DateCell
  date : Date → DateCell
  -- a `datetime`: its day, and the time of day in microseconds
  datetime : Date → ℕ → DateCell
  text : IsoText → DateCell
  other : DateCell

-- A time stamp: None, a `datetime` as microseconds since the epoch, or a text.
pub data Stamp : Type 0 where
  missing : Stamp
  datetime : ℤ → Stamp
  text : Text → Stamp

pub record Row : Type 0 where
  pub id : Option ℤ
  pub symbol : Option Text
  pub market : Option Text
  pub fiscal_year : Scalar
  pub fiscal_quarter : Scalar
  pub report_date : DateCell
  pub report_type : Option Text
  pub is_predicted : Bool
  pub eps_estimate : Option ℤ
  pub eps_actual : Option ℤ
  pub revenue_estimate : Option ℤ
  pub revenue_actual : Option ℤ
  pub estimate_currency : Option Text
  pub actual_currency : Option Text
  pub estimate_basis : Option Text
  pub actual_basis : Option Text
  pub estimate_source : Option Text
  pub actual_source : Option Text
  pub actual_as_of : Stamp
  pub date_status : Option Text
  pub comparison_unavailable_reason : Option Text
  pub created_at : Stamp
  pub updated_at : Stamp

-- `bool(value)` of an optional text.
abbrev pub truthy : Option Text → Bool
truthy none = false
truthy (some s) = not (is_empty s)

-- `int(value)`, `none` for its TypeError and its ValueError.
abbrev pub to_int : Scalar → Option ℤ
to_int Scalar.missing = none
to_int (Scalar.number n) = some n
to_int (Scalar.text s) = int_of s
to_int Scalar.other = none

-- `value in (None, "")`
abbrev pub is_blank : Scalar → Bool
is_blank Scalar.missing = true
is_blank (Scalar.text s) = is_empty s
is_blank _ = false
