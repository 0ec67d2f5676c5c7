-- ===== src/Audit/Throttle.antt =====
-- app/sync_audit.py: how often the throttle of `Heartbeats` lets a heartbeat through.
use mathlib.Core.Path.{subst, sym}
use fincal.Prelude.{
  ℕ, ◌+◌, ◌-◌, ◌*◌, ◌≤◌, ◌≡◌, refl, ap, ◌∙◌, Bool, true, false, Option, none, some, List, [], ◌∷◌,
  leb, eqb, ◌&&◌, ◌||◌, all, any, foldl, count, and_parts, arith, if◌then◌else◌, inl, inr,
  Bool-cases, eqb_iff,
}
use fincal.Prelude.Interfaces.{nat_eq}
use fincal.Prelude.Dict
use fincal.Prelude.Dict.{get-put}
use fincal.Audit.{Table, heartbeat}
use fincal.Audit.Heartbeats.{HeartbeatThrottle, too_soon, maybe, Call, called}

-- The heartbeat of a call, written whatever the throttle says.
abbrev pub beat : Table → Call → Table
beat s c = heartbeat c.run_id c.phase c.current c.total c.now s

-- The table after the calls.
unfoldable pub table_after : List Call → HeartbeatThrottle → Table → Table
table_after [] throttle s = s
table_after (c ∷ cs) throttle s =
    let result = called c throttle s in table_after cs result.1 result.2

-- The calls that report a heartbeat.
unfoldable pub written : List Call → HeartbeatThrottle → Table → List Call
written [] throttle s = []
written (c ∷ cs) throttle s =
    let result = called c throttle s in
    let rest = written cs result.1 result.2 in if result.0 then c ∷ rest else rest

abbrev pub of_run : ℕ → Call → Bool
of_run run_id c = eqb c.run_id run_id

-- The call comes no later than an interval behind one of these, of the same run.
abbrev pub is_covered : ℕ → List Call → Call → Bool
is_covered interval ws c =
    any (λ (w : Call). eqb w.run_id c.run_id && leb c.clock (w.clock + interval)) ws

-- The clock of every call reads between two moments.
abbrev pub all_within : ℕ → ℕ → List Call → Bool
all_within from to = all (λ (c : Call). leb from c.clock && leb c.clock to)

module _ (c : Call) (cs : List Call) (throttle : HeartbeatThrottle) (s : Table) where
  -- What a call leaves when it writes.
  abbrev marked : HeartbeatThrottle
  marked = record throttle { last = Dict.put c.run_id c.clock throttle.last }

  abbrev is_soon : Bool
  is_soon = too_soon throttle.interval_seconds (Dict.get c.run_id throttle.last) c.clock

  written_soon : is_soon ≡ true → written (c ∷ cs) throttle s ≡ written cs throttle s
  unfolding written maybe
  written_soon soon = ground (arith, soon)

  written_due : is_soon ≡ false → written (c ∷ cs) throttle s ≡ c ∷ written cs marked (beat s c)
  unfolding written maybe
  written_due due = ground (arith, due)

  after_soon : is_soon ≡ true → table_after (c ∷ cs) throttle s ≡ table_after cs throttle s
  unfolding table_after maybe
  after_soon soon = rw soon refl

  after_due : is_soon ≡ false → table_after (c ∷ cs) throttle s ≡ table_after cs marked (beat s c)
  unfolding table_after maybe
  after_due due = rw due refl

-- The table is the one that the heartbeats of the reporting calls, and no others, make.
table_after-written :
    (calls : List Call) (throttle : HeartbeatThrottle) (s : Table)
    → table_after calls throttle s ≡ foldl beat s (written calls throttle s)
unfolding table_after written
table_after-written [] throttle s = refl
table_after-written (c ∷ cs) throttle s = elim (Bool-cases (is_soon c cs throttle s)) [
  | inl soon ↦
      rw (after_soon c cs throttle s soon, written_soon c cs throttle s soon)
        (table_after-written cs throttle s)
  | inr due ↦
      rw (after_due c cs throttle s due, written_due c cs throttle s due)
        (table_after-written cs (marked c cs throttle s) (beat s c))
]

-- A run that was written at `l` is written at most as often as intervals fit behind `l`.
written_after :
    (run_id : ℕ) (calls : List Call) (throttle : HeartbeatThrottle) (s : Table) (from l to : ℕ)
    → all_within from to calls ≡ true
    → l ≤ to
    → Dict.get run_id throttle.last ≡ some l
    → throttle.interval_seconds * count (of_run run_id) (written calls throttle s) + l ≤ to
unfolding written
written_after run_id [] throttle s from l to inside low h = omega (arith, low)
written_after run_id (c ∷ cs) throttle s from l to inside low h =
    let (here, rest) =
      and_parts (leb from c.clock && leb c.clock to) (all_within from to cs) inside in
    let wait = throttle.interval_seconds in
    elim (Bool-cases (too_soon wait (Dict.get c.run_id throttle.last) c.clock)) [
      | inl soon ↦
          rw (written_soon c cs throttle s soon)
            (written_after run_id cs throttle s from l to rest low h)
      | inr due ↦
          let next = marked c cs throttle s in
          let t = beat s c in
          elim (Bool-cases (eqb c.run_id run_id)) [
            | inr other ↦
                let kept : Dict.get run_id next.last ≡ some l =
                  rw (get-put c.run_id run_id c.clock throttle.last, other) h in
                rw (written_due c cs throttle s due, other)
                  (written_after run_id cs next t from l to rest low kept)
            | inl same ↦
                let e = (eqb_iff c.run_id run_id).0 same in
                let at_c = ap (λ j. Dict.get j throttle.last) e ∙ h in
                let far : l + wait ≤ c.clock = ground (arith, rw at_c at due) in
                let kept : Dict.get run_id next.last ≡ some c.clock =
                  rw (get-put c.run_id run_id c.clock throttle.last, same) refl in
                let below : c.clock ≤ to = ground (arith, here) in
                let later = written_after run_id cs next t from c.clock to rest below kept in
                rw (written_due c cs throttle s due, same) (omega (arith, later, far))
          ]
    ]

-- The same for a run that was never written, from the first moment on.
written_from :
    (run_id : ℕ) (calls : List Call) (throttle : HeartbeatThrottle) (s : Table) (from to : ℕ)
    → all_within from to calls ≡ true
    → from ≤ to
    → Dict.get run_id throttle.last ≡ none
    → throttle.interval_seconds * count (of_run run_id) (written calls throttle s) + from
      ≤ to + throttle.interval_seconds
unfolding written
written_from run_id [] throttle s from to inside ordered h = omega (arith, ordered)
written_from run_id (c ∷ cs) throttle s from to inside ordered h =
    let (here, rest) =
      and_parts (leb from c.clock && leb c.clock to) (all_within from to cs) inside in
    let wait = throttle.interval_seconds in
    elim (Bool-cases (too_soon wait (Dict.get c.run_id throttle.last) c.clock)) [
      | inl soon ↦
          rw (written_soon c cs throttle s soon)
            (written_from run_id cs throttle s from to rest ordered h)
      | inr due ↦
          let next = marked c cs throttle s in
          let t = beat s c in
          let at = get-put c.run_id run_id c.clock throttle.last in
          elim (Bool-cases (eqb c.run_id run_id)) [
            | inr other ↦
                let kept : Dict.get run_id next.last ≡ none = rw (at, other) h in
                rw (written_due c cs throttle s due, other)
                  (written_from run_id cs next t from to rest ordered kept)
            | inl same ↦
                let kept : Dict.get run_id next.last ≡ some c.clock = rw (at, same) refl in
                let below : (from ≤ c.clock) × (c.clock ≤ to) = ground (arith, here) in
                let later = written_after run_id cs next t from c.clock to rest below.1 kept in
                rw (written_due c cs throttle s due, same) (omega (arith, later, below.0))
          ]
    ]

-- The moment is no later than an interval behind the last write.
abbrev in_interval : ℕ → Option ℕ → ℕ → Bool
in_interval interval none now = false
in_interval interval (some last) now = leb now (last + interval)

abbrev in_last : HeartbeatThrottle → Call → Bool
in_last throttle c = in_interval throttle.interval_seconds (Dict.get c.run_id throttle.last) c.clock

too_soon-in_interval :
    (interval : ℕ) (last : Option ℕ) (now : ℕ)
    → too_soon interval last now ≡ true
    → in_interval interval last now ≡ true
too_soon-in_interval interval none now h = cc
too_soon-in_interval interval (some last) now h = ground arith

or_right : (a b : Bool) → b ≡ true → (a || b) ≡ true
or_right a b h = ground arith

self_covered : (interval : ℕ) (c : Call) (ws : List Call) → is_covered interval (c ∷ ws) c ≡ true
self_covered interval c ws = ground arith

abbrev is_served : List Call → HeartbeatThrottle → Call → Bool
is_served ws throttle c = in_last throttle c || is_covered throttle.interval_seconds ws c

served_mono :
    (p q : Call → Bool) (cs : List Call)
    → ((x : Call) → p x ≡ true → q x ≡ true)
    → all p cs ≡ true
    → all q cs ≡ true
served_mono p q [] h a = refl
served_mono p q (c ∷ cs) h a =
    let (here, rest) = and_parts (p c) (all p cs) a in rw (h c here) (served_mono p q cs h rest)

served_marked :
    (c x : Call) (cs ws : List Call) (throttle : HeartbeatThrottle) (s : Table)
    → is_served ws (marked c cs throttle s) x ≡ true
    → is_served (c ∷ ws) throttle x ≡ true
served_marked c x cs ws throttle s h =
    let at = get-put c.run_id x.run_id c.clock throttle.last in
    elim (Bool-cases (eqb c.run_id x.run_id)) [
      | inl same ↦
          or_right (in_last throttle x) (is_covered throttle.interval_seconds (c ∷ ws) x)
            (rw same (rw (at, same) at h))
      | inr other ↦ rw other (rw (at, other) at h)
    ]

served_all :
    (calls : List Call) (throttle : HeartbeatThrottle) (s : Table)
    → all (is_served (written calls throttle s) throttle) calls ≡ true
served_all [] throttle s = refl
served_all (c ∷ cs) throttle s =
    let through = λ (ws : List Call). all (is_served ws throttle) (c ∷ cs) ≡ true in
    elim (Bool-cases (is_soon c cs throttle s)) [
      | inl soon ↦
          let now =
            too_soon-in_interval throttle.interval_seconds (Dict.get c.run_id throttle.last) c.clock
              soon in
          subst through (sym (written_soon c cs throttle s soon))
            (rw now (served_all cs throttle s))
      | inr due ↦
          let next = marked c cs throttle s in
          let ws = written cs next (beat s c) in
          let here =
            or_right (in_last throttle c) (is_covered throttle.interval_seconds (c ∷ ws) c)
              (self_covered throttle.interval_seconds c ws) in
          subst through (sym (written_due c cs throttle s due)) (
            rw here (
              served_mono (is_served ws next) (is_served (c ∷ ws) throttle) cs
                (λ x. served_marked c x cs ws throttle s) (served_all cs next (beat s c))))
    ]

-- A new throttle writes exactly the heartbeats of the calls that report one. Between two moments
-- these are, for a run, at most one, and one more for each interval that fits between the moments;
-- and each call comes no later than an interval behind a written one of its run.
pub written_bound :
    (interval run_id : ℕ) (calls : List Call) (s : Table) (from to : ℕ)
    → all_within from to calls ≡ true
    → from ≤ to
    → let new : HeartbeatThrottle = record { interval_seconds = interval; last = [] } in
      (table_after calls new s ≡ foldl beat s (written calls new s))
      × (interval * count (of_run run_id) (written calls new s) ≤ (to - from) + interval)
      × (all (is_covered interval (written calls new s)) calls ≡ true)
unfolding Dict.get
written_bound interval run_id calls s from to inside ordered =
    let new : HeartbeatThrottle = record { interval_seconds = interval; last = [] } in
    (
      table_after-written calls new s,
      omega (arith, ordered, written_from run_id calls new s from to inside ordered refl),
      served_all calls new s,
    )
