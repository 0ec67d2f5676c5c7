-- ===== src/Fiscal/Collapse/Order.antt =====
-- The representatives of the periods do not depend on the order in which the rows come in.
use mathlib.Core.List.{Memᴰ}
use fincal.Prelude.{
  ◌≤◌, ◌≡◌, ◌↔◌, sym, ap, ◌∙◌, Bool, true, false, some, List, [], ◌∷◌, arith, count,
}
use fincal.Prelude.Interfaces.{lex_connex, beq_iff, nat_eq, list_eq, pair_eq, option_eq}
use fincal.Prelude.Int.{ℤ, neg, pos, int_order, int_eq}
use fincal.Fiscal.Row.{Row, DateCell}
use fincal.Fiscal.Identity.{FiscalKey, fiscal_key}
use fincal.Fiscal.Authority.{authority_key, outranks}
use fincal.Fiscal.Scan.Counts.{has_key}
use fincal.Fiscal.Collapse.{collapse_periods}
use fincal.Fiscal.Collapse.Periods.{
  collapse_periods-mem, count-collapse_periods, collapse_periods-rival,
}

neg_injective : (m n : ℤ) → neg m ≡ neg n → m ≡ n
neg_injective m n h = ground arith

-- The identifiers are the primary key of the table: every row has one, and no two rows share one.
pub record HasIds (rows : List Row) : Type 0 where
  pub given : (x : Row) → Memᴰ x rows → (n : ℤ) × (x.id ≡ some n)
  pub distinct : (x y : Row) → Memᴰ x rows → Memᴰ y rows → x.id ≡ y.id → x ≡ y

last : List ℤ → ℤ
last [] = pos 0
last (x ∷ []) = x
last (x ∷ y ∷ ys) = last (y ∷ ys)

-- Rows that do not outrank one another have the same identifier.
same_id :
    (x y : Row) (m n : ℤ)
    → x.id ≡ some m
    → y.id ≡ some n
    → outranks x y ≡ false
    → outranks y x ≡ false
    → m ≡ n
unfolding outranks last
same_id x y m n p q h k =
    let keys =
      lex_connex (authority_key x DateCell.missing) (authority_key y DateCell.missing) h k in
    neg_injective m n (rw (p, q) at (ap last keys))

count-pos :
    {A : Type 0} (p : A → Bool) (xs : List A) (a : A) → Memᴰ a xs → p a ≡ true → 1 ≤ count p xs
count-pos p [] a m h = elim m [ ]
count-pos p (x ∷ xs) a (Memᴰ.head e) h = let e' : p x ≡ true = (rw e at h) in rw e' (omega arith)
count-pos p (x ∷ xs) a (Memᴰ.tail m) h = ground (arith, count-pos p xs a m h)

-- Two rows that a test singles out are one.
single :
    {A : Type 0} (p : A → Bool) (xs : List A) (a b : A)
    → count p xs ≤ 1
    → Memᴰ a xs
    → Memᴰ b xs
    → p a ≡ true
    → p b ≡ true
    → a ≡ b
single p [] a b c m n h k = elim m [ ]
single p (x ∷ xs) a b c (Memᴰ.head e) (Memᴰ.head f) h k = e ∙ sym f
single p (x ∷ xs) a b c (Memᴰ.head e) (Memᴰ.tail n) h k =
    let e' : p x ≡ true = (rw e at h) in absurd (ground (arith, count-pos p xs b n k, c, e'))
single p (x ∷ xs) a b c (Memᴰ.tail m) (Memᴰ.head f) h k =
    let f' : p x ≡ true = (rw f at k) in absurd (ground (arith, count-pos p xs a m h, c, f'))
single p (x ∷ xs) a b c (Memᴰ.tail m) (Memᴰ.tail n) h k = single p xs a b (ground arith) m n h k

-- The row that represents a period is the same for every order in which the rows are read: a list
-- with the same rows, each with an identifier of its own, has the same representative.
pub collapse_periods-order_free :
    (rows others : List Row) (w : Row) (k : FiscalKey)
    → HasIds rows
    → ((x : Row) → Memᴰ x rows ↔ Memᴰ x others)
    → Memᴰ w (collapse_periods rows)
    → fiscal_key w ≡ some k
    → Memᴰ w (collapse_periods others)
collapse_periods-order_free rows others w k ids same m kw =
    let in_rows = collapse_periods-mem rows w m in
    let (v, mv, kv, b) = collapse_periods-rival others w k ((same w).0 in_rows) kw in
    let v_in = (same v).1 (collapse_periods-mem others v mv) in
    let (u, mu, ku, c) = collapse_periods-rival rows v k v_in kv in
    let one =
      single (has_key fiscal_key k) (collapse_periods rows) u w (count-collapse_periods k rows) mu m
        ((beq_iff (fiscal_key u) (some k)).1 ku) ((beq_iff (fiscal_key w) (some k)).1 kw) in
    let (i, iw) = ids.given w in_rows in
    let (j, jv) = ids.given v v_in in
    let equal = same_id w v i j iw jv b (rw one at c) in
    let whole = ids.distinct w v in_rows v_in (iw ∙ ap some equal ∙ sym jv) in rw whole mv
