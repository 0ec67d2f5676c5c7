-- ===== src/Singleflight.antt =====
-- app/singleflight.py: one call for a key at a time. A `_Flight` is a number; `outcomes` has the
-- results of those whose event is set. What a caller does is cut at the running of its function and
-- at the waiting.
pub mod Leaders
pub mod Outcomes
use fincal.Prelude.{
  ℕ, ◌+◌, ◌≡◌, Bool, true, false, Option, none, some, List, [], ◌∷◌, not, eqb, if◌then◌else◌, keep,
  any,
}
use fincal.Prelude.Interfaces.{◌==◌, nat_eq, list_eq, option_eq}
use fincal.Prelude.Text.{Text}
use fincal.Prelude.Dict

-- What a function gives: a result, or an exception.
pub data Outcome {ℓ} (A : Type ℓ) : Type ℓ where
  result : A → Outcome A
  error : Text → Outcome A

pub record Flights {ℓ} (A : Type ℓ) : Type ℓ where
  pub inflight : List (Text × ℕ)
  pub outcomes : List (ℕ × Outcome A)
  pub next_flight : ℕ

module _ {ℓ} {A : Type ℓ} where
  abbrev pub no_flights : Flights A
  no_flights = record { inflight = []; outcomes = []; next_flight = 0 }

  abbrev pub enter_at : Option ℕ → Text → Flights A → (ℕ × Bool) × Flights A
  enter_at (some flight) key s = ((flight, false), s)
  enter_at none key s = (
    (s.next_flight, true),
    record s { inflight = Dict.put key s.next_flight s.inflight; next_flight = s.next_flight + 1 },
  )

  -- The critical section of `do`: the flight, whether the caller leads it, and the registry.
  unfoldable pub enter : Text → Flights A → (ℕ × Bool) × Flights A
  enter key s = enter_at (Dict.get key s.inflight) key s

  -- The leader's function ended: the holder has the outcome, and the event is set.
  unfoldable pub finish : ℕ → Outcome A → Flights A → Flights A
  finish flight outcome s = record s { outcomes = Dict.put flight outcome s.outcomes }

  -- `_cleanup`
  unfoldable pub cleanup : Text → ℕ → Flights A → Flights A
  cleanup key flight s = record s {
    inflight =
        if Dict.get key s.inflight == some flight then Dict.pop key s.inflight else s.inflight;
  }

  -- What a waiter gets within its timeout; `none` is the TimeoutError.
  unfoldable pub wait : ℕ → Flights A → Option (Outcome A)
  wait flight s = Dict.get flight s.outcomes

-- A registry with the calls that are running their functions, each with its flight.
pub record System {ℓ} (A : Type ℓ) : Type ℓ where
  pub flights : Flights A
  pub running : List (ℕ × Text)

-- What one thread does between two points where another one may come. The thread that cleans up
-- a flight is started when its leader has finished.
pub data Step {ℓ} {A : Type ℓ} : System A → System A → Type ℓ where
  lead :
      (s : System A) (key : Text)
      → (enter key s.flights).0.1 ≡ true
      → Step s (record {
        flights = (enter key s.flights).1;
        running = ((enter key s.flights).0.0, key) ∷ s.running;
      })
  join :
      (s : System A) (key : Text)
      → (enter key s.flights).0.1 ≡ false
      → Step s (record s { flights = (enter key s.flights).1 })
  finished :
      (s : System A) (flight : ℕ) (outcome : Outcome A)
      → any (λ r. eqb r.0 flight) s.running ≡ true
      → Step s (record {
        flights = finish flight outcome s.flights;
        running = keep (λ r. not (eqb r.0 flight)) s.running;
      })
  cleaned :
      (s : System A) (key : Text) (flight : ℕ)
      → any (λ r. eqb r.0 flight) s.running ≡ false
      → Step s (record s { flights = cleanup key flight s.flights })

pub data Reachable {ℓ} {A : Type ℓ} : System A → Type ℓ where
  begin : Reachable (record { flights = no_flights; running = [] })
  then : (s t : System A) → Reachable s → Step s t → Reachable t
