-- ===== src/LayerCache/Bound.antt =====
-- Eviction: how many keys stay, and which ones.
use mathlib.Core.Bool.{false≢true}
use mathlib.Core.Path.{ap, subst}
use fincal.Prelude.{
  is_some, all, Bool, ℕ, zero, suc, ◌≤◌, ◌<◌, ◌≡◌, refl, sym, ◌∙◌, ◌⊎◌, inl, inr, true, false,
  Option, none, some, List, [], ◌∷◌, arith, length, ltb, Bool-cases, Option-cases,
}
use fincal.Prelude.Interfaces.{◌==◌, nat_eq, list_eq, beq_iff}
use fincal.Prelude.Text.{Text}
use fincal.Prelude.Dict
use fincal.Prelude.Dict.{get-pop, length-pop_lt}
use fincal.LayerCache.State.{
  Entry, Cache, is_live, drop_key, first_idle, evict_rounds, evict_to, evict,
}

module _ {ℓ} {A : Type ℓ} where
  -- Dropping a key touches no lock.
  pub is_live-drop_key :
      (k victim : Text) (c : Cache A) → is_live k (drop_key victim c) ≡ is_live k c
  unfolding is_live drop_key
  is_live-drop_key k victim c = refl

  -- The victim is a key that no producer owns, and it is in the table.
  first_idle_not_live :
      (d : List (Text × Entry A)) (c : Cache A) (k : Text)
      → first_idle d c ≡ some k
      → is_live k c ≡ false
  unfolding first_idle
  first_idle_not_live [] c k h = cc
  first_idle_not_live ((j, e) ∷ d) c k h = elim (Bool-cases (is_live j c)) [
    | inl live ↦ first_idle_not_live d c k (rw live at h)
    | inr idle ↦
        let shown : Path (Option Text) (some j) (some k) = (rw idle at h) in
        let same : j ≡ k = cc in rw same at idle
  ]

  present :
      (d : List (Text × Entry A)) (c : Cache A) (k : Text)
      → first_idle d c ≡ some k
      → is_some (Dict.get k d) ≡ true
  unfolding first_idle Dict.get
  present [] c k h = cc
  present ((j, e) ∷ d) c k h = elim (Bool-cases (is_live j c)) [
    | inl live ↦ elim (Bool-cases (j == k)) [
      | inl same ↦ rw same
      | inr other ↦ rw other (present d c k (rw live at h))
    ]
    | inr idle ↦
        let shown : Path (Option Text) (some j) (some k) = (rw idle at h) in
        let same : j ≡ k = cc in rw ((beq_iff j k).1 same)
  ]

  -- Dropping the victim makes the table shorter.
  drop_key_shorter :
      (c : Cache A) (k : Text)
      → first_idle c.entries c ≡ some k
      → length (drop_key k c).entries < length c.entries
  unfolding drop_key
  drop_key_shorter c k h = elim (Option-cases (Dict.get k c.entries)) [
    | inl missing ↦ cc (rw missing at (present c.entries c k h))
    | inr (e, at) ↦ length-pop_lt k e c.entries at
  ]

  -- The test of the producers, of all keys of a table.
  abbrev pub all_live : List (Text × Entry A) → Cache A → Bool
  all_live d c = all (λ e. is_live e.0 c) d

  no_idle : (d : List (Text × Entry A)) (c : Cache A) → first_idle d c ≡ none → all_live d c ≡ true
  unfolding first_idle
  no_idle [] c h = refl
  no_idle ((j, e) ∷ d) c h = elim (Bool-cases (is_live j c)) [
    | inl live ↦ rw live (no_idle d c (rw live at h))
    | inr idle ↦ cc (rw idle at h)
  ]

  -- The table fits, or every key that is left has a live producer.
  abbrev pub Settled : ℕ → Cache A → Type 0
  Settled limit c = (length c.entries ≤ limit) ⊎ (all_live c.entries c ≡ true)

  evict_rounds-Settled :
      (fuel limit : ℕ) (c : Cache A)
      → length c.entries ≤ fuel
      → Settled limit (evict_rounds fuel limit c)
  unfolding evict_rounds
  evict_rounds-Settled zero limit c h = inl (omega arith)
  evict_rounds-Settled (suc fuel) limit c h = elim (Bool-cases (ltb limit (length c.entries))) [
    | inr fits ↦ rw fits (inl (ground arith))
    | inl over ↦ elim (Option-cases (first_idle c.entries c)) [
      | inl busy ↦ rw (over, busy) (inr (no_idle c.entries c busy))
      | inr (k, idle) ↦
          rw (over, idle)
            (evict_rounds-Settled fuel limit (drop_key k c)
              (omega (arith, drop_key_shorter c k idle)))
    ]
  ]

  -- A table that a victim's key is popped from keeps what it has of the other keys.
  get-pop_idle {κ} :
      {V : Type κ} (k victim : Text) (c : Cache A) (d : List (Text × V))
      → is_live k c ≡ true
      → is_live victim c ≡ false
      → Dict.get k (Dict.pop victim d) ≡ Dict.get k d
  get-pop_idle k victim c d live idle = elim (Bool-cases (victim == k)) [
    | inr other ↦ get-pop victim k d ∙ rw other
    | inl same ↦
        let e = (beq_iff victim k).0 same in absurd (false≢true (sym (rw e at idle) ∙ live))
  ]

  -- What a key with a live producer keeps: its entry and its applied ticket.
  abbrev pub Keeps : Text → Cache A → Cache A → Type ℓ
  Keeps k c c' =
      (Dict.get k c'.entries ≡ Dict.get k c.entries)
      × (Dict.get k c'.applied ≡ Dict.get k c.applied)

  drop_key-Keeps :
      (k victim : Text) (c : Cache A)
      → is_live k c ≡ true
      → is_live victim c ≡ false
      → Keeps k c (drop_key victim c)
  unfolding drop_key
  drop_key-Keeps k victim c live idle =
      (get-pop_idle k victim c c.entries live idle, get-pop_idle k victim c c.applied live idle)

  evict_rounds-Keeps :
      (fuel limit : ℕ) (c : Cache A) (k : Text)
      → is_live k c ≡ true
      → Keeps k c (evict_rounds fuel limit c)
  unfolding evict_rounds
  evict_rounds-Keeps zero limit c k live = (refl, refl)
  evict_rounds-Keeps (suc fuel) limit c k live = elim (Bool-cases (ltb limit (length c.entries))) [
    | inr fits ↦ rw fits (refl, refl)
    | inl over ↦ elim (Option-cases (first_idle c.entries c)) [
      | inl busy ↦ rw (over, busy) (refl, refl)
      | inr (v, idle) ↦
          let here = drop_key-Keeps k v c live (first_idle_not_live c.entries c v idle) in
          let later =
            evict_rounds-Keeps fuel limit (drop_key v c) k (is_live-drop_key k v c ∙ live) in
          rw (over, idle) (later.0 ∙ here.0, later.1 ∙ here.1)
    ]
  ]

  -- An eviction takes neither the entry nor the applied ticket of a key with a live producer.
  pub evict-Keeps : (c : Cache A) (k : Text) → is_live k c ≡ true → Keeps k c (evict c)
  unfolding evict
  evict-Keeps c k live = elim (Option-cases c.max_entries) [
    | inl unbounded ↦
        let e : evict c ≡ c = ap (λ m. evict_to m c) unbounded in
        (ap (λ d. Dict.get k d.entries) e, ap (λ d. Dict.get k d.applied) e)
    | inr (limit, bounded) ↦
        let kept = evict_rounds-Keeps (length c.entries) limit c k live in
        let e = ap (λ m. evict_to m c) bounded in
        (ap (λ d. Dict.get k d.entries) e ∙ kept.0, ap (λ d. Dict.get k d.applied) e ∙ kept.1)
  ]

  evict_rounds-fits :
      (fuel limit : ℕ) (c : Cache A)
      → ltb limit (length c.entries) ≡ false
      → evict_rounds fuel limit c ≡ c
  unfolding evict_rounds
  evict_rounds-fits zero limit c h = refl
  evict_rounds-fits (suc fuel) limit c h = rw h refl

  -- After an eviction with a cap the table fits the cap, or every key that is left has a live
  -- producer; and a table that fits the cap is left as it is. The number of entries is enough fuel.
  pub evict-Settled :
      (c : Cache A) (limit : ℕ)
      → c.max_entries ≡ some limit
      → Settled limit (evict c) × ((ltb limit (length c.entries) ≡ true) ⊎ (evict c ≡ c))
  unfolding evict
  evict-Settled c limit bounded =
      let e : evict c ≡ evict_rounds (length c.entries) limit c = ap (λ m. evict_to m c) bounded in
      (
        subst (Settled limit) (sym e)
            (evict_rounds-Settled (length c.entries) limit c (omega arith)),
        elim (Bool-cases (ltb limit (length c.entries))) [
          | inl over ↦ inl over
          | inr fits ↦ inr (e ∙ evict_rounds-fits (length c.entries) limit c fits)
        ],
      )
