-- ===== src/Fiscal/Authority/Rules.antt =====
-- The documented order of preference, rule by rule, and the ranking that implements it.
use mathlib.Core.Path.{ap₂}
use fincal.Prelude.{
  ◌<◌, ◌≡◌, ap, ◌∙◌, Bool, true, false, Option, some, List, ◌∷◌, not, ◌&&◌, arith, if◌then◌else◌,
}
use fincal.Prelude.Interfaces.{◌<?◌, lex, list_order}
use fincal.Prelude.Int.{ℤ, pos, ltb_ℤ, int_order, ltb-neg}
use fincal.Calendar.{Date, IsValid, date_lt, to_ordinal}
use fincal.Calendar.Ordinals.{to_ordinal_mono}
use fincal.Fiscal.Row.{Row, Stamp, DateCell}
use fincal.Fiscal.Identity.{is_disclosure, has_actuals, report_date_of}
use fincal.Fiscal.Authority.{
  authority_key, outranks, or_stamp, flag, newest_first, latest_first, highest_first,
}

abbrev stamp_of : Row → Stamp
stamp_of row = or_stamp row.updated_at row.created_at

abbrev date_of : Row → Option Date
date_of row = report_date_of row DateCell.missing

-- Both rows agree on the first three places of the ranking.
pub record Ties (a b : Row) : Type 0 where
  pub predicted : a.is_predicted ≡ b.is_predicted
  pub disclosure : is_disclosure a.report_type ≡ is_disclosure b.report_type
  pub reported : has_actuals a ≡ has_actuals b

-- A row that carries provider data: it is confirmed, or it has an actual.
abbrev Provided : Row → Type 0
Provided row = (row.is_predicted && not (has_actuals row)) ≡ false

-- The rules by which the row `a` comes before the row `b` of the same period.
pub data Precedes (a b : Row) : Type 0 where
  confirmed : a.is_predicted ≡ false → b.is_predicted ≡ true → Precedes a b
  release :
      a.is_predicted ≡ b.is_predicted
      → is_disclosure a.report_type ≡ false
      → is_disclosure b.report_type ≡ true
      → Precedes a b
  reported :
      a.is_predicted ≡ b.is_predicted
      → is_disclosure a.report_type ≡ is_disclosure b.report_type
      → has_actuals a ≡ true
      → has_actuals b ≡ false
      → Precedes a b
  newer_prediction :
      (s t : ℤ)
      → Ties a b
      → a.is_predicted ≡ true
      → has_actuals a ≡ false
      → stamp_of a ≡ Stamp.datetime s
      → stamp_of b ≡ Stamp.datetime t
      → ltb_ℤ t s ≡ true
      → Precedes a b
  later_date :
      (d e : Date)
      → Ties a b
      → Provided a
      → date_of a ≡ some d
      → date_of b ≡ some e
      → IsValid d
      → IsValid e
      → date_lt e d ≡ true
      → Precedes a b
  newer_row :
      (s t : ℤ)
      → Ties a b
      → Provided a
      → date_of a ≡ date_of b
      → stamp_of a ≡ Stamp.datetime s
      → stamp_of b ≡ Stamp.datetime t
      → ltb_ℤ t s ≡ true
      → Precedes a b
  higher_id :
      (m n : ℤ)
      → Ties a b
      → date_of a ≡ date_of b
      → stamp_of a ≡ stamp_of b
      → a.id ≡ some m
      → b.id ≡ some n
      → ltb_ℤ n m ≡ true
      → Precedes a b

-- One sequence is before another by their first difference.
data Before : List ℤ → List ℤ → Type 0 where
  first : {x y : ℤ} {xs ys : List ℤ} → (x <? y) ≡ true → Before (x ∷ xs) (y ∷ ys)
  rest : {x y : ℤ} {xs ys : List ℤ} → x ≡ y → Before xs ys → Before (x ∷ xs) (y ∷ ys)

lex_of_Before : {xs ys : List ℤ} → Before xs ys → lex xs ys ≡ true
lex_of_Before (first h) = rw h
lex_of_Before (rest {x} {y} e b) = let tail = lex_of_Before b in ground (arith, int_order.irrefl x)

-- The place of the pure predictions, as a function of what it reads.
abbrev recency_of : Bool → Stamp → ℤ
recency_of pure ts = if pure then newest_first ts else pos 0

module _ (a b : Row) (r : Ties a b) where
  -- The first three places agree: the rest of the key decides.
  after_ties :
      {us vs : List ℤ}
      → Before us vs
      → Before
          (flag a.is_predicted
            ∷ flag (is_disclosure a.report_type)
            ∷ flag (not (has_actuals a))
            ∷ us)
          (flag b.is_predicted
            ∷ flag (is_disclosure b.report_type)
            ∷ flag (not (has_actuals b))
            ∷ vs)
  after_ties h =
      rest (ap flag r.predicted)
        (rest (ap flag r.disclosure) (rest (ap (λ c. flag (not c)) r.reported) h))

  same_purity : (a.is_predicted && not (has_actuals a)) ≡ (b.is_predicted && not (has_actuals b))
  same_purity = ap₂ (λ p h. p && not h) r.predicted r.reported

  -- Rows with provider data agree on the fourth place too.
  same_recency :
      Provided a
      → recency_of (a.is_predicted && not (has_actuals a)) (stamp_of a)
        ≡ recency_of (b.is_predicted && not (has_actuals b)) (stamp_of b)
  same_recency p = rw (← same_purity, p)

newer_first :
    (a b : Row) (s t : ℤ)
    → stamp_of a ≡ Stamp.datetime s
    → stamp_of b ≡ Stamp.datetime t
    → ltb_ℤ t s ≡ true
    → (newest_first (stamp_of a) <? newest_first (stamp_of b)) ≡ true
newer_first a b s t u v l = rw (u, v) (ltb-neg s t ∙ l)

later_first :
    (a b : Row) (d e : Date)
    → date_of a ≡ some d
    → date_of b ≡ some e
    → to_ordinal e < to_ordinal d
    → (latest_first (date_of a) <? latest_first (date_of b)) ≡ true
later_first a b d e u v l =
    rw (u, v) (ltb-neg (pos (to_ordinal d)) (pos (to_ordinal e)) ∙ ground arith)

higher_first :
    (a b : Row) (m n : ℤ)
    → a.id ≡ some m
    → b.id ≡ some n
    → ltb_ℤ n m ≡ true
    → (highest_first a.id <? highest_first b.id) ≡ true
higher_first a b m n u v l = rw (u, v) (ltb-neg m n ∙ l)

-- Two predictions without actuals compare by their stamps before anything else.
recent_first :
    (a b : Row) (s t : ℤ)
    → Ties a b
    → a.is_predicted ≡ true
    → has_actuals a ≡ false
    → stamp_of a ≡ Stamp.datetime s
    → stamp_of b ≡ Stamp.datetime t
    → ltb_ℤ t s ≡ true
    → (recency_of (a.is_predicted && not (has_actuals a)) (stamp_of a)
        <? recency_of (b.is_predicted && not (has_actuals b)) (stamp_of b))
      ≡ true
recent_first a b s t r p h u v l =
    let pure : (a.is_predicted && not (has_actuals a)) ≡ true = ap₂ (λ q k. q && not k) p h in
    rw (← same_purity a b r, pure) (newer_first a b s t u v l)

key_Before :
    (a b : Row)
    → Precedes a b
    → Before (authority_key a DateCell.missing) (authority_key b DateCell.missing)
unfolding authority_key
key_Before a b (confirmed p q) =
    let wins : (flag a.is_predicted <? flag b.is_predicted) ≡ true = rw (p, q) in first wins
key_Before a b (release p d e) =
    let wins : (flag (is_disclosure a.report_type) <? flag (is_disclosure b.report_type)) ≡ true =
      rw (d, e) in
    (rest (ap flag p) (first wins))
key_Before a b (reported p d h k) =
    let wins : (flag (not (has_actuals a)) <? flag (not (has_actuals b))) ≡ true = rw (h, k) in
    (rest (ap flag p) (rest (ap flag d) (first wins)))
key_Before a b (newer_prediction s t r p h u v l) =
    (after_ties a b r (first (recent_first a b s t r p h u v l)))
key_Before a b (later_date d e r p u v vd ve l) =
    (after_ties a b r
      (rest (same_recency a b r p) (first (later_first a b d e u v (to_ordinal_mono e d ve vd l)))))
key_Before a b (newer_row s t r p d u v l) =
    (after_ties a b r
      (rest (same_recency a b r p) (rest (ap latest_first d) (first (newer_first a b s t u v l)))))
key_Before a b (higher_id m n r d u v w l) =
    (after_ties a b r (
      rest (ap₂ recency_of (same_purity a b r) u)
        (rest (ap latest_first d) (rest (ap newest_first u) (first (higher_first a b m n v w l))))))

-- Each of the documented rules is what the ranking does: a row that precedes another by one of
-- them outranks it.
pub outranks_of_Precedes : (a b : Row) → Precedes a b → outranks a b ≡ true
unfolding outranks
outranks_of_Precedes a b h = lex_of_Before (key_Before a b h)
