-- ===== src/Tests/Counters.antt =====
-- The counters at small numbers.
use batt_lock.Base.{◌≡◌, ◌⊎◌, true, false}
use batt_lock.Base.Int.{pos, ◌<ℤ◌, ◌≤ℤ◌}
use batt_lock.Crypto.Counters.{new_replay, validate}
use batt_lock.Crypto.Counters.Replay.{validate_cases}

validate_cases_example :
    ((pos 0 <ℤ pos 7) × (validate (pos 7) new_replay ≡ (true, record { last_counter = pos 7 })))
    ⊎ ((pos 7 ≤ℤ pos 0) × (validate (pos 7) new_replay ≡ (false, new_replay)))
validate_cases_example = validate_cases (pos 7) new_replay
