-- ===== src/Tests/Vehicle.antt =====
-- The vehicle with the frame of `Tests.Status` and two session IDs.
use batt_lock.Base.{
  ℕ, ◌≡◌, refl, true, [], ◌∷◌, none, some, ok, err, ◌↔◌, length, unicode_error, arith,
}
use batt_lock.Base.Int.{pos, ◌≤ℤ◌}
use batt_lock.Base.Utf8.{decode, decode_from, decode_byte}
use batt_lock.Base.Struct.{unpack_u32, unpack_u8}
use batt_lock.Can.Message.{CanMessage, session_id_id}
use batt_lock.Can.Status.{decode_status}
use batt_lock.Can.Status.RoundTrip.{rounded}
use batt_lock.Can.Battery.{BatteryNode, new_battery_node}
use batt_lock.Crypto.Auth.{Battery, new_battery}
use batt_lock.Crypto.Counters.{validate}
use batt_lock.Can.Vehicle.{
  VehicleNode, new_vehicle, replay_attack, valid, session_received, judge, out_of_range,
  flags_raised, suspicious, handle_status, handle_session_id, receive,
}
use batt_lock.Can.Vehicle.Telemetry.{receive_old, after_all}
use batt_lock.Can.Vehicle.History.{highest, seen, receive_replay_iff}
use batt_lock.Can.Vehicle.Plausible.{IsPlausible, receive_valid_iff}
use batt_lock.Can.Vehicle.Genuine.{drive, all_valid, drive_valid}
use batt_lock.Can.Vehicle.Sessions.{handle_session_id_forgotten}
use batt_lock.Can.Vehicle.Raises.{HoldsText, receive_raises_iff}
use batt_lock.Tests.Floats.{decimals, decimals-IsIeee}
use batt_lock.Tests.Crypto.{toy}
use batt_lock.Tests.Status.{sample, whole, nonce_frame}

abbrev pub fresh_vehicle : VehicleNode ℕ
fresh_vehicle = new_vehicle none

abbrev later_vehicle : VehicleNode ℕ
later_vehicle = record fresh_vehicle { replay = record { last_counter = pos 300 } }

reported :
    handle_status decimals whole fresh_vehicle ≡ (valid (rounded decimals sample), later_vehicle)
unfolding handle_status decode_status unpack_u32 unpack_u8 judge out_of_range flags_raised
    suspicious validate
reported = refl

receive_valid_iff_example :
    ((receive decimals whole (after_all decimals (nonce_frame ∷ []) fresh_vehicle)).0
      ≡ ok (valid (rounded decimals sample)))
    ↔ ((length whole.content ≡ 19)
        × (decode_status decimals whole ≡ ok (rounded decimals sample))
        × IsPlausible decimals
            (highest (pos 0) (seen decimals (nonce_frame ∷ [])))
            (rounded decimals sample))
receive_valid_iff_example =
    receive_valid_iff decimals (nonce_frame ∷ []) whole fresh_vehicle (rounded decimals sample) refl

decoded : decode_status decimals whole ≡ ok (rounded decimals sample)
unfolding decode_status unpack_u32 unpack_u8
decoded = refl

receive_old_example : receive decimals whole later_vehicle ≡ (ok replay_attack, later_vehicle)
receive_old_example =
    receive_old decimals whole later_vehicle (rounded decimals sample) refl refl decoded
      (omega arith)

abbrev node : BatteryNode (Battery toy)
node = new_battery_node (new_battery toy 5 (66 ∷ []) (83 ∷ []) (77 ∷ []))

drive_valid_example :
    (drive decimals decimals-IsIeee 3 node fresh_vehicle).0 ≡ all_valid decimals decimals-IsIeee 3 0
drive_valid_example =
    drive_valid decimals decimals-IsIeee 3 node fresh_vehicle (omega arith) (omega arith)

-- The ID "a" and an empty one.
abbrev a_frame : CanMessage
a_frame = record { arbitration_id = session_id_id; content = 97 ∷ [] }

abbrev b_frame : CanMessage
b_frame = record { arbitration_id = session_id_id; content = [] }

a_decoded : decode (97 ∷ []) ≡ ok (97 ∷ [])
unfolding decode decode_from decode_byte
a_decoded = refl

b_decoded : decode [] ≡ ok []
unfolding decode decode_from decode_byte
b_decoded = refl

handle_session_id_forgotten_example :
    handle_session_id {F = ℕ} a_frame
      (handle_session_id {F = ℕ} b_frame (handle_session_id {F = ℕ} a_frame fresh_vehicle).1).1
    ≡ (
      ok (session_received (97 ∷ [])),
      record fresh_vehicle { session_id = some (97 ∷ []); session_active = true },
    )
handle_session_id_forgotten_example =
    handle_session_id_forgotten a_frame b_frame fresh_vehicle (97 ∷ []) [] a_decoded b_decoded
      (λ e. cc)

-- The byte 255 begins no character.
abbrev bad_frame : CanMessage
bad_frame = record { arbitration_id = session_id_id; content = 255 ∷ [] }

receive_raises_iff_example :
    (((receive decimals bad_frame fresh_vehicle).0 ≡ err unicode_error)
      ↔ (HoldsText bad_frame × (decode (255 ∷ []) ≡ err unicode_error)))
    × ((receive decimals bad_frame fresh_vehicle).0 ≡ err unicode_error
        → (receive decimals bad_frame fresh_vehicle).1 ≡ fresh_vehicle)
receive_raises_iff_example = receive_raises_iff decimals bad_frame fresh_vehicle unicode_error

receive_replay_iff_example :
    ((receive decimals whole (after_all decimals (nonce_frame ∷ whole ∷ []) fresh_vehicle)).0
      ≡ ok replay_attack)
    ↔ ((rounded decimals sample).counter
        ≤ℤ highest (pos 0) (seen decimals (nonce_frame ∷ whole ∷ [])))
receive_replay_iff_example =
    receive_replay_iff decimals (nonce_frame ∷ whole ∷ []) whole fresh_vehicle
      (rounded decimals sample) refl refl decoded
