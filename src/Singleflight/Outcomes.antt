-- ===== src/Singleflight/Outcomes.antt =====
-- What waiters read: the outcome of a flight is set once.
use mathlib.Core.Bool.{true≢false}
use fincal.Prelude.{
  ℕ, ◌+◌, ◌<◌, ◌≡◌, refl, Bool, true, false, some, List, [], ◌∷◌, not, eqb, keep, any, arith, inl,
  inr, Bool-cases, Option-cases, eqb_iff, is_some,
}
use fincal.Prelude.Interfaces.{nat_eq, list_eq, option_eq}
use fincal.Prelude.Text.{Text}
use fincal.Prelude.Dict
use fincal.Prelude.Dict.{get-put}
use fincal.Singleflight.{Outcome, System, Step, Reachable, enter, finish, cleanup, wait}

abbrev runs : ℕ → List (ℕ × Text) → Bool
runs f = any (λ r. eqb r.0 f)

-- Flights are numbered in their order, and one whose function is running has no outcome.
record Numbered {A : Type 0} (s : System A) : Type 0 where
  set_low : (f : ℕ) → is_some (Dict.get f s.flights.outcomes) ≡ true → f < s.flights.next_flight
  running_low : (f : ℕ) → runs f s.running ≡ true → f < s.flights.next_flight
  pending : (f : ℕ) → runs f s.running ≡ true → is_some (Dict.get f s.flights.outcomes) ≡ false

runs-keep :
    (f g : ℕ) (running : List (ℕ × Text))
    → runs g (keep (λ r. not (eqb r.0 f)) running) ≡ true
    → (runs g running ≡ true) × (eqb f g ≡ false)
runs-keep f g [] h = cc
runs-keep f g ((i, key) ∷ rs) h = ground (arith, runs-keep f g rs)

lead-Numbered :
    {A : Type 0} (s : System A) (key : Text)
    → Numbered s
    → Numbered (record {
      flights = record s.flights {
        inflight = Dict.put key s.flights.next_flight s.flights.inflight;
        next_flight = s.flights.next_flight + 1;
      };
      running = (s.flights.next_flight, key) ∷ s.running;
    })
lead-Numbered s key x = record {
  set_low = λ f h. omega (arith, x.set_low f h);
  running_low = λ f h. elim (Bool-cases (eqb s.flights.next_flight f)) [
    | inl same ↦ ground (arith, same)
    | inr other ↦ omega (arith, x.running_low f (rw other at h))
  ];
  pending = λ f h. elim (Bool-cases (eqb s.flights.next_flight f)) [
    | inr other ↦ x.pending f (rw other at h)
    | inl same ↦ elim (Bool-cases (is_some (Dict.get f s.flights.outcomes))) [
      | inr unset ↦ unset
      | inl set ↦ let low = x.set_low f set in absurd (ground (arith, low, same))
    ]
  ];
}

finish-Numbered :
    {A : Type 0} (s : System A) (f : ℕ) (outcome : Outcome A)
    → runs f s.running ≡ true
    → Numbered s
    → Numbered (record {
      flights = record s.flights { outcomes = Dict.put f outcome s.flights.outcomes };
      running = keep (λ r. not (eqb r.0 f)) s.running;
    })
finish-Numbered s f outcome h x = record {
  set_low = λ g k. elim (Bool-cases (eqb f g)) [
    | inl same ↦ let low = x.running_low f h in ground (arith, low, same)
    | inr other ↦ x.set_low g (rw other at (rw (get-put f g outcome s.flights.outcomes) at k))
  ];
  running_low = λ g k. x.running_low g (runs-keep f g s.running k).0;
  pending = λ g k.
      let (still, apart) = runs-keep f g s.running k in
      rw (get-put f g outcome s.flights.outcomes, apart) (x.pending g still);
}

Numbered-Step : {A : Type 0} (s t : System A) → Step s t → Numbered s → Numbered t
unfolding enter finish cleanup
Numbered-Step _ _ (Step.lead s key leads) x =
    elim (Option-cases (Dict.get key s.flights.inflight)) [
      | inl missing ↦ rw missing (lead-Numbered s key x)
      | inr (f, found) ↦ cc (rw found at leads)
    ]
Numbered-Step _ _ (Step.join s key joins) x =
    elim (Option-cases (Dict.get key s.flights.inflight)) [
      | inl missing ↦ cc (rw missing at joins)
      | inr (f, found) ↦ rw found x
    ]
Numbered-Step _ _ (Step.finished s f outcome h) x = finish-Numbered s f outcome h x
Numbered-Step _ _ (Step.cleaned s key f gone) x = record {
  set_low = x.set_low;
  running_low = x.running_low;
  pending = x.pending;
}

Reachable-Numbered : {A : Type 0} (s : System A) → Reachable s → Numbered s
unfolding Dict.get
Reachable-Numbered _ Reachable.begin = record {
  set_low = λ f h. cc;
  running_low = λ f h. cc;
  pending = λ f h. refl;
}
Reachable-Numbered _ (Reachable.then s t path step) =
    Numbered-Step s t step (Reachable-Numbered s path)

stays :
    {A : Type 0} (s t : System A) (f : ℕ) (o : Outcome A)
    → Step s t
    → Numbered s
    → Dict.get f s.flights.outcomes ≡ some o
    → Dict.get f t.flights.outcomes ≡ some o
unfolding enter finish cleanup
stays _ _ f o (Step.lead s key leads) x h = elim (Option-cases (Dict.get key s.flights.inflight)) [
  | inl missing ↦ rw missing h
  | inr (g, found) ↦ rw found h
]
stays _ _ f o (Step.join s key joins) x h = elim (Option-cases (Dict.get key s.flights.inflight)) [
  | inl missing ↦ rw missing h
  | inr (g, found) ↦ rw found h
]
stays _ _ f o (Step.finished s g outcome running) x h = elim (Bool-cases (eqb g f)) [
  | inr other ↦ rw (get-put g f outcome s.flights.outcomes, other) h
  | inl same ↦
      let e : g ≡ f = (eqb_iff g f).0 same in
      let unset = rw (e, h) at (x.pending g running) in absurd (true≢false unset)
]
stays _ _ f o (Step.cleaned s key g gone) x h = h

-- Every waiter of a flight gets the same answer: once the outcome of a flight can be read, no step
-- of any thread changes it.
pub wait-stable :
    {A : Type 0} (s t : System A) (flight : ℕ) (outcome : Outcome A)
    → Reachable s
    → Step s t
    → wait flight s.flights ≡ some outcome
    → wait flight t.flights ≡ some outcome
unfolding wait
wait-stable s t f o path step h = stays s t f o step (Reachable-Numbered s path) h
