-- ===== src/Fiscal/Comparison/Reasons.antt =====
-- What the reason codes say.
use fincal.Prelude.{
  ap, sym, ◌∙◌, ◌≡◌, ◌≢◌, ◌↔◌, inl, inr, refl, Bool, true, false, Option, none, some, arith,
  is_some, not, ◌||◌, if◌then◌else◌, Bool-cases,
}
use fincal.Prelude.Interfaces.{◌==◌, nat_eq, list_eq, beq_iff, beq_comm, ne_of_beq}
use fincal.Prelude.Text.{Text, lower, strip, or_empty}
use fincal.Fiscal.Row.{Row, truthy}
use fincal.Fiscal.Comparison.{
  Metric, declared_attribution, has_comparable_values, same_source, compare_bases,
  compare_currencies, comparison_unavailable_reason, growth_unavailable_reason, actual_of,
  basis_unverified,
}

-- Two attributions are declared and say the same.
pub record Agree (left right : Option Text) : Type 0 where
  pub label : Text
  pub at_left : left ≡ some label
  pub at_right : right ≡ some label

-- Two attributions are declared and differ.
pub record Disagree (left right : Option Text) : Type 0 where
  pub first : Text
  pub second : Text
  pub at_left : left ≡ some first
  pub at_right : right ≡ some second
  pub differ : first ≢ second

currencies_none : (c d u : Option Text) → compare_currencies c d u ≡ none → Agree c d × (u ≡ none)
currencies_none none d u h = cc
currencies_none (some c) none u h = cc
currencies_none (some c) (some d) u h = elim (Bool-cases (c == d)) [
  | inl same ↦ (
    record { label = c; at_left = refl; at_right = ap some (sym ((beq_iff c d).0 same)) },
    rw same at h,
  )
  | inr other ↦ cc (rw other at h)
]

currencies-Agree : (c d u : Option Text) → Agree c d → compare_currencies c d u ≡ u
currencies-Agree c d u a = rw (a.at_left, a.at_right, (beq_iff a.label a.label).1 refl)

bases_none : (p q : Option Text) → compare_bases p q none ≡ none → ¬ Disagree p q
bases_none p q h x =
    let same = rw (x.at_left, x.at_right) at h in
    elim (Bool-cases (x.first == x.second)) [
      | inl e ↦ x.differ ((beq_iff x.first x.second).0 e)
      | inr e ↦ cc (rw e at same)
    ]

bases_fine : (p q : Option Text) → ¬ Disagree p q → compare_bases p q none ≡ none
bases_fine none q h = refl
bases_fine (some p) none h = refl
bases_fine (some p) (some q) h = elim (Bool-cases (p == q)) [
  | inl same ↦ rw same
  | inr other ↦ absurd (
      h (record {
        first = p;
        second = q;
        at_left = refl;
        at_right = refl;
        differ = ne_of_beq p q other;
      }))
]

-- A complete pair of a row may be compared exactly when the currencies are declared and the same,
-- and the bases are not both declared and different.
pub comparison-none_iff :
    (row : Row)
    → has_comparable_values row ≡ true
    → (comparison_unavailable_reason row ≡ none) ↔ (
        Agree
          (declared_attribution row.estimate_currency)
          (declared_attribution row.actual_currency)
        × ¬ Disagree
            (declared_attribution row.estimate_basis)
            (declared_attribution row.actual_basis))
unfolding comparison_unavailable_reason
comparison-none_iff row h =
    let ec = declared_attribution row.estimate_currency in
    let ac = declared_attribution row.actual_currency in
    let eb = declared_attribution row.estimate_basis in
    let ab = declared_attribution row.actual_basis in
    rw h (
      (λ n.
          let (agree, bases) = currencies_none ec ac (compare_bases eb ab none) n in
          (agree, bases_none eb ab bases)),
      (λ both. currencies-Agree ec ac (compare_bases eb ab none) both.0 ∙ bases_fine eb ab both.1),
    )

unverified_none :
    (c d p q : Option Text)
    → compare_currencies c d (compare_bases p q none) ≢ some basis_unverified
unverified_none c d p q = ground arith

-- No row is ever refused with the reason `basis_unverified`, although the documentation of the
-- function lists it.
pub comparison-never_unverified :
    (row : Row) → comparison_unavailable_reason row ≢ some basis_unverified
unfolding comparison_unavailable_reason
comparison-never_unverified row h = elim (Bool-cases (has_comparable_values row)) [
  | inr nothing ↦ cc (rw nothing at h)
  | inl pair ↦
      unverified_none (declared_attribution row.estimate_currency)
        (declared_attribution row.actual_currency) (declared_attribution row.estimate_basis)
        (declared_attribution row.actual_basis) (rw pair at h)
]

-- Two refusals may be tested in either order.
swap_tests {ℓ} :
    {A : Type ℓ} (p q : Bool) (x y z : A)
    → y ≡ z
    → (if not p || not q then x else y) ≡ (if not q || not p then x else z)
swap_tests true true x y z h = h
swap_tests true false x y z h = refl
swap_tests false true x y z h = refl
swap_tests false false x y z h = refl

same_source_comm : (a b : Option Text) → same_source a b ≡ same_source b a
unfolding same_source
same_source_comm a b =
    swap_tests (truthy a) (truthy b) false
      (lower (strip (or_empty a)) == lower (strip (or_empty b)))
      (lower (strip (or_empty b)) == lower (strip (or_empty a)))
      (beq_comm (lower (strip (or_empty a))) (lower (strip (or_empty b))))

bases_comm : (p q u : Option Text) → compare_bases p q u ≡ compare_bases q p u
bases_comm none none u = refl
bases_comm none (some q) u = refl
bases_comm (some p) none u = refl
bases_comm (some p) (some q) u = rw (beq_comm p q)

currencies_comm : (c d u : Option Text) → compare_currencies c d u ≡ compare_currencies d c u
currencies_comm none none u = refl
currencies_comm none (some d) u = refl
currencies_comm (some c) none u = refl
currencies_comm (some c) (some d) u = rw (beq_comm c d)

-- Whether two periods may be compared does not depend on which is the current one.
growth_comm :
    (a b : Option Row) (metric : Metric)
    → growth_unavailable_reason a b metric ≡ growth_unavailable_reason b a metric
unfolding growth_unavailable_reason
growth_comm none none metric = refl
growth_comm none (some b) metric = refl
growth_comm (some a) none metric = refl
growth_comm (some a) (some b) metric =
    let c = declared_attribution a.actual_currency in
    let d = declared_attribution b.actual_currency in
    let p = declared_attribution a.actual_basis in
    let q = declared_attribution b.actual_basis in
    let unstated = λ (s : Bool). if s then none else some basis_unverified in
    let one = unstated (same_source a.actual_source b.actual_source) in
    let other = unstated (same_source b.actual_source a.actual_source) in
    swap_tests (is_some (actual_of metric a)) (is_some (actual_of metric b)) none
      (compare_currencies c d (compare_bases p q one))
      (compare_currencies d c (compare_bases q p other))
      (currencies_comm c d (compare_bases p q one)
        ∙ ap (compare_currencies d c) (
            bases_comm p q one
            ∙ ap (λ s. compare_bases q p (unstated s))
                (same_source_comm a.actual_source b.actual_source)))
