-- ===== src/Tests/Attacks.antt =====
-- The attacks on a new vehicle.
use batt_lock.Base.{◌≡◌, ◌≢◌, if◌then◌else◌, length, Error, err, refl, [], ◌∷◌, ok, arith}
use batt_lock.Base.Int.{pos}
use batt_lock.Base.Struct.{struct_pack, pack_u32, pack_u8}
use batt_lock.Can.Message.{CanMessage, battery_status}
use batt_lock.Can.Status.{encode_status}
use batt_lock.Can.Vehicle.{replay_attack, malformed, receive}
use batt_lock.Attacks.Telemetry.{inject_fake_status, inject_fault_flag_evasion}
use batt_lock.Attacks.Detection.{injection_blocks_battery}
use batt_lock.Attacks.Fuzzing.{Source, randint, choose, corrupt_status_frame}
use batt_lock.Attacks.Fuzzing.Resilience.{changes_size, receive-corrupt_status_frame}
use batt_lock.Tests.Floats.{decimals, decimals-IsIeee}
use batt_lock.Tests.Status.{sample, whole, encodes}
use batt_lock.Tests.Vehicle.{fresh_vehicle}

-- 999 and 3 * 256 + 231 are the same.
abbrev injected : CanMessage
injected = record {
  arbitration_id = battery_status;
  content =
      231 ∷ 3 ∷ 0 ∷ 0 ∷ 231 ∷ 3 ∷ 0 ∷ 0 ∷ 231 ∷ 3 ∷ 0 ∷ 0 ∷ 231 ∷ 3 ∷ 0 ∷ 0 ∷ 100 ∷ 100 ∷ 0 ∷ [];
}

injects : inject_fake_status decimals ≡ ok injected
unfolding inject_fake_status encode_status struct_pack pack_u32 pack_u8
injects = refl

injection_blocks_battery_example :
    (receive decimals whole (receive decimals injected fresh_vehicle).1).0 ≡ ok replay_attack
injection_blocks_battery_example =
    injection_blocks_battery decimals decimals-IsIeee injected whole fresh_vehicle sample injects
      encodes (omega arith)

abbrev flagged : CanMessage
flagged = record {
  arbitration_id = battery_status;
  content = 7 ∷ 0 ∷ 0 ∷ 0 ∷ 51 ∷ 0 ∷ 0 ∷ 0 ∷ 12 ∷ 0 ∷ 0 ∷ 0 ∷ 30 ∷ 0 ∷ 0 ∷ 0 ∷ 85 ∷ 98 ∷ 1 ∷ [];
}

raises : inject_fault_flag_evasion decimals (pos 1) (pos 7) ≡ ok flagged
unfolding inject_fault_flag_evasion encode_status struct_pack pack_u32 pack_u8
raises = refl

-- Every draw is 1, so the frame of `Tests.Status` is truncated to its first byte.
abbrev ones : Source
ones n = 1

receive-corrupt_status_frame_example :
    let frame = (corrupt_status_frame whole ones).0 in
    ((e : Error) → (receive decimals frame fresh_vehicle).0 ≢ err e)
    × (if changes_size (choose (randint 0 3 ones).0)
        then receive decimals frame fresh_vehicle ≡ (ok malformed, fresh_vehicle)
        else length frame.content ≡ 19)
receive-corrupt_status_frame_example =
    receive-corrupt_status_frame decimals whole ones fresh_vehicle refl refl
