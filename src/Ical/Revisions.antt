-- ===== src/Ical/Revisions.antt =====
-- The revision numbers of app/ical.py.
use fincal.Prelude.{◌+◌, ◌*◌, ◌≤◌, ◌≡◌, Bool, true, false, Option, arith, if◌then◌else◌}
use fincal.Prelude.Int.{ℤ, pos, ◌-ℤ◌, ltb_ℤ}
use fincal.Prelude.Text.{Text}
use fincal.Calendar.{Date}
use fincal.Fiscal.Row.{Row}
use fincal.Ical.Events.{
  micros, sequence_epoch, sequence_at, rank, is_tentative, revision_moment, event_sequence,
}

-- The first moment whose number no longer fits 31 bits, in January of 2054.
abbrev pub sequence_end : ℤ
sequence_end = pos ((1577836800 + 1073741824) * micros)

sequence_at_order :
    (t u : ℤ) (tentative : Bool)
    → ltb_ℤ u t ≡ false
    → ltb_ℤ u sequence_epoch ≡ false
    → ltb_ℤ u sequence_end ≡ true
    → let old = sequence_at (t -ℤ sequence_epoch) (rank tentative) in
      let new = sequence_at (u -ℤ sequence_epoch) 1 in
      (old + (if tentative then 1 else 0) ≤ new) × (new ≤ 2147483647)
unfolding sequence_epoch ◌-ℤ◌
sequence_at_order t u tentative order begun early = ground (arith, order, begun, early)

-- A confirmed event, written at the moment of another revision or later, from 2020 on and before
-- January of 2054, has a number of at least the other's, a greater one if the other was tentative,
-- and one that a signed 32-bit integer holds.
pub event_sequence-rises :
    (parse_moment : Text → Option ℤ) (show_other app_name : Text) (e f : Row) (d g : Date)
    → let moment = revision_moment parse_moment show_other app_name in
      ltb_ℤ (moment f g) (moment e d) ≡ false
      → ltb_ℤ (moment f g) sequence_epoch ≡ false
      → ltb_ℤ (moment f g) sequence_end ≡ true
      → is_tentative f ≡ false
      → let sequence = event_sequence parse_moment show_other app_name in
        (sequence e d + (if is_tentative e then 1 else 0) ≤ sequence f g)
        × (sequence f g ≤ 2147483647)
unfolding event_sequence
event_sequence-rises parse show app e f d g order begun early confirmed =
    let moment = revision_moment parse show app in
    rw confirmed (sequence_at_order (moment e d) (moment f g) (is_tentative e) order begun early)
