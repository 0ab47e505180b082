-- ===== src/Can/Collector.antt =====
-- `can/status_collector.py`: the three status frames of a round are put together.
pub mod Rounds
pub mod Emission
pub mod FullRound
use batt_lock.Base.{
  ℕ, ◌==◌, if◌then◌else◌, Bool, true, false, not, ◌&&◌, ◌||◌, List, [], ◌∷◌, Option, none, some,
  Result, ok, err,
}
use batt_lock.Base.Float.{FloatOps}
use batt_lock.Can.Message.{CanMessage, battery_status_a, battery_status_b, battery_status_c}
use batt_lock.Can.Status.{BatteryStatus, status_from_frames}

-- The fields `_a`, `_b` and `_c`.
pub record StatusCollector : Type 0 where
  pub a : Option CanMessage
  pub b : Option CanMessage
  pub c : Option CanMessage

-- `__init__`, and what `reset` leaves.
abbrev pub new_collector : StatusCollector
new_collector = record { a = none; b = none; c = none }

unfoldable pub reset : StatusCollector → StatusCollector
reset _ = new_collector

-- `x is None`
abbrev pub is_none : Option CanMessage → Bool
is_none none = true
is_none (some _) = false

unfoldable pub pending : StatusCollector → Bool
pending s = not (is_none s.a) && (is_none s.b || is_none s.c)

module _ {F : Type 0} (ops : FloatOps F) where
  -- The end of `feed`: if decoding raises, the frames stay in the buffer.
  unfoldable pub complete :
      StatusCollector
      → Option CanMessage
      → Option CanMessage
      → Option CanMessage
      → Result (Option (BatteryStatus F)) × StatusCollector
  unfolding reset
  complete s (some a) (some b) (some c) = elim (status_from_frames ops a b c) [
    | ok status ↦ (ok (some status), reset s)
    | err e ↦ (err e, s)
  ]
  complete s _ _ _ = (ok none, s)

  abbrev finish : StatusCollector → Result (Option (BatteryStatus F)) × StatusCollector
  finish s = complete s s.a s.b s.c

  unfoldable pub feed :
      CanMessage → StatusCollector → Result (Option (BatteryStatus F)) × StatusCollector
  unfolding complete
  feed message s =
      let arb = message.arbitration_id in
      if arb == battery_status_a
      then finish (record { a = some message; b = none; c = none })
      else if arb == battery_status_b
      then finish (if is_none s.a then s else record s { b = some message })
      else if arb == battery_status_c
      then finish (if is_none s.a then s else record s { c = some message })
      else (ok none, s)

  -- Calls of `feed` in a row, with what each returned or raised.
  unfoldable pub feed_all :
      List CanMessage → StatusCollector → List (Result (Option (BatteryStatus F))) × StatusCollector
  feed_all [] s = ([], s)
  feed_all (m ∷ ms) s = let (r, s') = feed m s in let (rs, s'') = feed_all ms s' in (r ∷ rs, s'')
