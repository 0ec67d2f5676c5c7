-- ===== src/Singleflight/Leaders.antt =====
-- At no time do two callers run the function of one key.
use fincal.Prelude.{
  ℕ, ◌≤◌, ◌≡◌, ◌≢◌, refl, ap, sym, ◌∙◌, Bool, true, false, Option, none, some, List, [], ◌∷◌, ◌&&◌,
  not, eqb, if◌then◌else◌, keep, any, all, count, arith, inl, inr, Bool-cases, Option-cases,
  and_parts,
}
use fincal.Prelude.Interfaces.{◌==◌, beq_iff, nat_eq, list_eq, option_eq}
use fincal.Prelude.Text.{Text}
use fincal.Prelude.Dict
use fincal.Prelude.Dict.{get-put, get-put_self, get-pop}
use fincal.Singleflight.{System, Step, Reachable, enter, finish, cleanup}

-- Every running call is the one that the registry names for its key.
abbrev pub registered : List (Text × ℕ) → ℕ × Text → Bool
registered inflight r = Dict.get r.1 inflight == some r.0

abbrev pub of_key : Text → ℕ × Text → Bool
of_key key r = r.1 == key

-- The registry names every running call, and no key has two.
record Exclusive (inflight : List (Text × ℕ)) (running : List (ℕ × Text)) : Type 0 where
  named : all (registered inflight) running ≡ true
  single : (key : Text) → count (of_key key) running ≤ 1

both : (a b : Bool) → a ≡ true → b ≡ true → (a && b) ≡ true
both a b h k = ground arith

-- A key with no flight is not the key of a registered call.
other_key :
    (inflight : List (Text × ℕ)) (key j : Text) (f : ℕ)
    → Dict.get key inflight ≡ none
    → registered inflight (f, j) ≡ true
    → j ≢ key
other_key inflight key j f h named e =
    let at_j = (beq_iff (Dict.get j inflight) (some f)).0 named in
    let at_key : Path (Option ℕ) none (some f) =
      sym h ∙ sym (ap (λ k. Dict.get k inflight) e) ∙ at_j in
    cc

none_running :
    (inflight : List (Text × ℕ)) (key : Text) (running : List (ℕ × Text))
    → Dict.get key inflight ≡ none
    → all (registered inflight) running ≡ true
    → count (of_key key) running ≡ 0
none_running inflight key [] h k = refl
none_running inflight key ((f, j) ∷ rs) h k =
    let (named, rest) = and_parts (registered inflight (f, j)) (all (registered inflight) rs) k in
    elim (Bool-cases (j == key)) [
      | inl same ↦ absurd (other_key inflight key j f h named ((beq_iff j key).0 same))
      | inr other ↦ rw other (none_running inflight key rs h rest)
    ]

named-put :
    (inflight : List (Text × ℕ)) (key : Text) (f : ℕ) (running : List (ℕ × Text))
    → Dict.get key inflight ≡ none
    → all (registered inflight) running ≡ true
    → all (registered (Dict.put key f inflight)) running ≡ true
named-put inflight key f [] h k = refl
named-put inflight key f ((g, j) ∷ rs) h k =
    let (named, rest) = and_parts (registered inflight (g, j)) (all (registered inflight) rs) k in
    let later = named-put inflight key f rs h rest in
    elim (Bool-cases (key == j)) [
      | inl same ↦ absurd (other_key inflight key j g h named (sym ((beq_iff key j).0 same)))
      | inr other ↦ rw (get-put key j f inflight, other, later, named) refl
    ]

named-keep :
    (inflight : List (Text × ℕ)) (p : ℕ × Text → Bool) (running : List (ℕ × Text))
    → all (registered inflight) running ≡ true
    → all (registered inflight) (keep p running) ≡ true
named-keep inflight p [] h = refl
named-keep inflight p (r ∷ rs) h = ground (arith, named-keep inflight p rs)

count-keep_le :
    (q p : ℕ × Text → Bool) (running : List (ℕ × Text)) → count q (keep p running) ≤ count q running
count-keep_le q p [] = omega arith
count-keep_le q p (r ∷ rs) = ground (arith, count-keep_le q p rs)

named-pop :
    (inflight : List (Text × ℕ)) (key : Text) (f : ℕ) (running : List (ℕ × Text))
    → Dict.get key inflight ≡ some f
    → any (λ r. eqb r.0 f) running ≡ false
    → all (registered inflight) running ≡ true
    → all (registered (Dict.pop key inflight)) running ≡ true
named-pop inflight key f [] h n k = refl
named-pop inflight key f ((g, j) ∷ rs) h n k =
    let (named, rest) = and_parts (registered inflight (g, j)) (all (registered inflight) rs) k in
    let apart : eqb g f ≡ false = ground arith in
    let none_left : any (λ r. eqb r.0 f) rs ≡ false = ground arith in
    let later = named-pop inflight key f rs h none_left rest in
    elim (Bool-cases (key == j)) [
      | inr other ↦ rw (get-pop key j inflight, other, later, named) refl
      | inl same ↦
          let at_j = (beq_iff (Dict.get j inflight) (some g)).0 named in
          let one : Path (Option ℕ) (some f) (some g) =
            sym h ∙ ap (λ k. Dict.get k inflight) ((beq_iff key j).0 same) ∙ at_j in
          let equal : f ≡ g = cc in absurd (ground (arith, equal, apart))
    ]

lead-Exclusive :
    {A : Type 0} (s : System A) (key : Text)
    → Dict.get key s.flights.inflight ≡ none
    → Exclusive s.flights.inflight s.running
    → Exclusive
        (Dict.put key s.flights.next_flight s.flights.inflight)
        ((s.flights.next_flight, key) ∷ s.running)
lead-Exclusive s key missing x =
    let inflight = s.flights.inflight in
    let f = s.flights.next_flight in
    record {
      named =
          both (registered (Dict.put key f inflight) (f, key))
            (all (registered (Dict.put key f inflight)) s.running)
            ((beq_iff (Dict.get key (Dict.put key f inflight)) (some f)).1
              (get-put_self key f inflight))
            (named-put inflight key f s.running missing x.named);
      single = λ j. elim (Bool-cases (key == j)) [
        | inr other ↦ rw other (x.single j)
        | inl same ↦
            let nobody =
              ap (λ k. count (of_key k) s.running) (sym ((beq_iff key j).0 same))
              ∙ none_running inflight key s.running missing x.named in
            rw same (omega (arith, nobody))
      ];
    }

cleanup-Exclusive :
    (inflight : List (Text × ℕ)) (key : Text) (f : ℕ) (running : List (ℕ × Text))
    → any (λ r. eqb r.0 f) running ≡ false
    → Exclusive inflight running
    → Exclusive
        (if Dict.get key inflight == some f then Dict.pop key inflight else inflight)
        running
cleanup-Exclusive inflight key f running gone x =
    elim (Bool-cases (Dict.get key inflight == some f)) [
      | inr other ↦ rw other x
      | inl same ↦ rw same (record {
        named =
            named-pop inflight key f running ((beq_iff (Dict.get key inflight) (some f)).0 same)
              gone x.named;
        single = x.single;
      })
    ]

Exclusive-Step :
    {A : Type 0} (s t : System A)
    → Step s t
    → Exclusive s.flights.inflight s.running
    → Exclusive t.flights.inflight t.running
unfolding enter finish cleanup
Exclusive-Step _ _ (Step.lead s key leads) x =
    elim (Option-cases (Dict.get key s.flights.inflight)) [
      | inl missing ↦ rw missing (lead-Exclusive s key missing x)
      | inr (f, found) ↦ cc (rw found at leads)
    ]
Exclusive-Step _ _ (Step.join s key joins) x =
    elim (Option-cases (Dict.get key s.flights.inflight)) [
      | inl missing ↦ cc (rw missing at joins)
      | inr (f, found) ↦ rw found x
    ]
Exclusive-Step _ _ (Step.finished s f outcome runs) x =
    let stays = λ (r : ℕ × Text). not (eqb r.0 f) in
    record {
      named = named-keep s.flights.inflight stays s.running x.named;
      single = λ key. omega (arith, count-keep_le (of_key key) stays s.running, x.single key);
    }
Exclusive-Step _ _ (Step.cleaned s key f gone) x =
    cleanup-Exclusive s.flights.inflight key f s.running gone x

Reachable-Exclusive :
    {A : Type 0} (s : System A) → Reachable s → Exclusive s.flights.inflight s.running
Reachable-Exclusive _ Reachable.begin = record { named = refl; single = λ key. omega arith }
Reachable-Exclusive _ (Reachable.then s t path step) =
    Exclusive-Step s t step (Reachable-Exclusive s path)

-- In every state that the steps of any number of threads lead to, at most one call for a key is
-- running its function, and the registry names the flight of every such call.
pub one_leader :
    {A : Type 0} (s : System A) (key : Text)
    → Reachable s
    → (count (of_key key) s.running ≤ 1) × (all (registered s.flights.inflight) s.running ≡ true)
one_leader s key path = let x = Reachable-Exclusive s path in (x.single key, x.named)
