-- ===== src/Fiscal/Scan.antt =====
-- The loop that three functions of app/fiscal.py share: rows are kept in order of arrival, a dict
-- remembers where the row of each key stands, and a row whose key is known meets that row.
pub mod Place
pub mod Members
pub mod Winners
pub mod Counts
use fincal.Prelude.{ℕ, ◌+◌, Option, none, some, List, [], ◌∷◌, ◌++◌, foldl, length, get_elem?, set}
use fincal.Prelude.Interfaces.{Eq}
use fincal.Prelude.Dict

-- What becomes of the new row when its key is known.
pub data Choice : Type 0 where
  replace : Choice
  discard : Choice
  both : Choice

-- The lists `kept` and `dropped`, and the dict `positions`.
pub record Scan {ℓ κ} (R : Type ℓ) (K : Type κ) : Type (ℓ ⊔ κ) where
  pub kept : List R
  pub positions : List (K × ℕ)
  pub dropped : List R

module _ {ℓ κ} {R : Type ℓ} {K : Type κ} ⦃e : Eq K⦄ where
  abbrev pub start : Scan R K
  start = record { kept = []; positions = []; dropped = [] }

  abbrev pub append : R → Scan R K → Scan R K
  append row s = record s { kept = s.kept ++ row ∷ [] }

  abbrev pub apply : Choice → ℕ → R → R → Scan R K → Scan R K
  apply Choice.replace i incumbent row s = record s {
    kept = set s.kept i row;
    dropped = s.dropped ++ incumbent ∷ [];
  }
  apply Choice.discard i incumbent row s = record s { dropped = s.dropped ++ row ∷ [] }
  apply Choice.both i incumbent row s = append row s

  -- A position that is out of range would be an IndexError; `Place` shows that there is none.
  abbrev pub meet : (R → R → Choice) → ℕ → Option R → R → Scan R K → Scan R K
  meet choose i none row s = s
  meet choose i (some incumbent) row s = apply (choose row incumbent) i incumbent row s

  abbrev pub arrive : (R → R → Choice) → K → Option ℕ → R → Scan R K → Scan R K
  arrive choose k none row s = record s {
    kept = s.kept ++ row ∷ [];
    positions = Dict.put k (length s.kept) s.positions;
  }
  arrive choose k (some i) row s = meet choose i (get_elem? s.kept i) row s

  abbrev pub dispatch : (R → R → Choice) → Option K → R → Scan R K → Scan R K
  dispatch choose none row s = append row s
  dispatch choose (some k) row s = arrive choose k (Dict.get k s.positions) row s

  -- One round of the loop, and the loop.
  unfoldable pub step : (R → Option K) → (R → R → Choice) → Scan R K → R → Scan R K
  step key choose s row = dispatch choose (key row) row s

  unfoldable pub scan : (R → Option K) → (R → R → Choice) → List R → Scan R K
  unfolding step
  scan key choose rows = foldl (step key choose) start rows
