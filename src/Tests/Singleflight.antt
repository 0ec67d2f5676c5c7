-- ===== src/Tests/Singleflight.antt =====
-- A first caller that leads, and what the registry has then.
use fincal.Prelude.{ℕ, ◌≤◌, ◌≡◌, refl, true, false, some, [], ◌∷◌, count, all, any, keep, not, eqb}
use fincal.Prelude.Interfaces.{nat_eq, list_eq}
use fincal.Prelude.Dict
use fincal.Prelude.Text.{Text, codes}
use fincal.Singleflight.{System, Step, Reachable, no_flights, enter, Outcome, finish, cleanup, wait}
use fincal.Singleflight.Outcomes.{wait-stable}
use fincal.Singleflight.Leaders.{of_key, registered, one_leader}

abbrev name_key : Text
name_key = codes "name:AAPL"

abbrev start : System ℕ
start = record { flights = no_flights; running = [] }

abbrev led : System ℕ
led = record {
  flights = (enter name_key start.flights).1;
  running = ((enter name_key start.flights).0.0, name_key) ∷ start.running;
}

start-enter : (enter name_key start.flights).0.1 ≡ true
unfolding enter Dict.get
start-enter = refl

led-Reachable : Reachable led
led-Reachable = Reachable.then start led Reachable.begin (Step.lead start name_key start-enter)

one_leader_example :
    (count (of_key name_key) led.running ≤ 1)
    × (all (registered led.flights.inflight) led.running ≡ true)
one_leader_example = one_leader led name_key led-Reachable

abbrev priced : Outcome ℕ
priced = Outcome.result 7

abbrev done : System ℕ
done = record {
  flights = finish 0 priced led.flights;
  running = keep (λ r. not (eqb r.0 0)) led.running;
}

abbrev cleaned : System ℕ
cleaned = record done { flights = cleanup name_key 0 done.flights }

led-running : any (λ r. eqb r.0 0) led.running ≡ true
unfolding enter Dict.get
led-running = refl

done-running : any (λ r. eqb r.0 0) done.running ≡ false
unfolding enter Dict.get
done-running = refl

done-wait : wait 0 done.flights ≡ some priced
unfolding wait finish enter Dict.get Dict.put
done-wait = refl

done-Reachable : Reachable done
done-Reachable = Reachable.then led done led-Reachable (Step.finished led 0 priced led-running)

wait-stable_example : wait 0 cleaned.flights ≡ some priced
wait-stable_example =
    wait-stable done cleaned 0 priced done-Reachable (Step.cleaned done name_key 0 done-running)
      done-wait
