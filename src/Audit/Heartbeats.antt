-- ===== src/Audit/Heartbeats.antt =====
-- app/sync_audit.py: `HeartbeatThrottle`. The clock counts in whole ticks.
use fincal.Prelude.{ℕ, ◌+◌, Bool, true, false, Option, none, some, List, ltb, if◌then◌else◌}
use fincal.Prelude.Interfaces.{nat_eq}
use fincal.Prelude.Text.{Text}
use fincal.Prelude.Dict
use fincal.Audit.{Table, heartbeat}

pub record HeartbeatThrottle : Type 0 where
  pub interval_seconds : ℕ
  pub last : List (ℕ × ℕ)

-- `last is not None and (now - last) < interval`
abbrev pub too_soon : ℕ → Option ℕ → ℕ → Bool
too_soon interval none now = false
too_soon interval (some last) now = ltb now (last + interval)

-- `clock` is the reading of the monotonic clock, `now` that of the wall clock.
unfoldable pub maybe :
    ℕ
    → Option Text
    → Option ℕ
    → Option ℕ
    → ℕ
    → ℕ
    → HeartbeatThrottle
    → Table
    → Bool × HeartbeatThrottle × Table
maybe run_id phase current total clock now throttle s =
    if too_soon throttle.interval_seconds (Dict.get run_id throttle.last) clock
    then (false, throttle, s)
    else (
      true,
      record throttle { last = Dict.put run_id clock throttle.last },
      heartbeat run_id phase current total now s,
    )

-- A call of `maybe`.
pub record Call : Type 0 where
  pub run_id : ℕ
  pub phase : Option Text
  pub current : Option ℕ
  pub total : Option ℕ
  pub clock : ℕ
  pub now : ℕ

abbrev pub called : Call → HeartbeatThrottle → Table → Bool × HeartbeatThrottle × Table
called c = maybe c.run_id c.phase c.current c.total c.clock c.now
