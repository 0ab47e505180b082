-- ===== src/Simulink.antt =====
-- `simulink/generate_extra_modes.py`: the rows for the attack modes 6 to 11. The file is returned as the list
-- of its rows. What the vehicle prints is left out; an exception of its is not.
pub mod Rows
pub mod Setup
pub mod Delayed
use batt_lock.Base.{
  ℕ, Bool, true, false, not, if◌then◌else◌, List, [], ◌∷◌, ◌++◌, none, some, Result, ok, err, ◌>>=◌,
}
use batt_lock.Base.Texts.{Text, codes}
use batt_lock.Base.Int.{ℤ, pos}
use batt_lock.Base.Float.{FloatOps}
use batt_lock.Base.Json.{JsonOps}
use batt_lock.Base.Dates.{Moment}
use batt_lock.Can.Message.{Bytes, CanMessage, nonce_id, signature_id}
use batt_lock.Can.Status.{BatteryStatus, decode_status}
use batt_lock.Can.Battery.{
  BatteryNode, new_battery_node, send_status, receive_nonce, receive_session_id, send_certificate,
}
use batt_lock.Can.Vehicle.{
  VehicleNode, new_vehicle, receive, receive_and_verify_certificate, receive_and_verify_signature,
  send_nonce, send_session_id,
}
use batt_lock.Crypto.Library.{CryptoOps}
use batt_lock.Crypto.Models.{BatteryIdentity, Certificate}
use batt_lock.Crypto.Signatures.{generate_keypair, sign_message, serialize_public_key}
use batt_lock.Crypto.Certificates.{RootCa, new_root_ca, create_certificate, verify_certificate}
use batt_lock.Crypto.Counters.{validate}
use batt_lock.Crypto.Auth.{create_session}
use batt_lock.Attacks.Bus.{
  new_capture, capture, new_delay, intercept, release_all, new_hijack, capture_session,
  replay_session,
}
use batt_lock.Attacks.Telemetry.{Changes, inject_evasive_status, inject_fault_flag_evasion, modify}
use batt_lock.Attacks.Certificates.{
  create_expired_certificate, create_self_signed_certificate, tamper_certificate_field,
  set_battery_id,
}
use batt_lock.Attacks.Fuzzing.{Source, fuzz, corrupt_status_frame}
use batt_lock.Simulink.Setup.{Chances, the_battery, battery_and_cert, hand_over}
use batt_lock.Simulink.Rows.{ModeRow, TimeOps, status_to_row, plain_row}

module _ {PrivateKey PublicKey F : Type 0} (crypto : CryptoOps PrivateKey PublicKey)
    (ops : FloatOps F) (clock : TimeOps F) where
  -- 97.0 V and 480.0 A.
  abbrev pub pushed : Changes ops
  pushed = record {
    voltage = some (ops.literal 97 0);
    current = some (ops.literal 480 0);
    temperature = none;
    soc = none;
    soh = none;
    fault_flags = none;
  }

  unfoldable pub mode_6_mitm : Chances → Result (List (ModeRow F))
  mode_6_mitm chances = do
    issued ← battery_and_cert crypto chances
    let (sent, node) = send_status ops (new_battery_node the_battery)
    valid ← sent
    vehicle ← hand_over ops valid (new_vehicle {PublicKey = PublicKey} none)
    status ← decode_status ops valid
    tampered ← modify ops pushed (capture valid new_capture)
    changed ← decode_status ops tampered
    let t = clock.add (ops.literal 0 0) (ops.literal 1 1)
    ok (
        status_to_row clock 6 (ops.literal 0 0) status 5 1 0 0 85
        ∷ status_to_row clock 6 t changed 5 1 0 1 0
        ∷ [])

  -- The loop of mode 7.
  unfoldable pub delayed_rows :
      F → List CanMessage → VehicleNode PublicKey → Result (List (ModeRow F))
  delayed_rows t [] vehicle = ok []
  delayed_rows t (delayed ∷ rest) vehicle = do
    vehicle₁ ← hand_over ops delayed vehicle
    status ← decode_status ops delayed
    let (fresh, window) = validate status.counter vehicle₁.replay
    let replay = if not fresh then 1 else 0
    let soc = if not fresh then 0 else 85
    rows ← delayed_rows (clock.add t (ops.literal 1 1)) rest (record vehicle₁ { replay = window })
    ok (status_to_row clock 7 t status 5 1 replay 0 soc ∷ rows)

  unfoldable pub mode_7_delay : Chances → Result (List (ModeRow F))
  mode_7_delay chances = do
    issued ← battery_and_cert crypto chances
    let (sent1, node) = send_status ops (new_battery_node the_battery)
    m1 ← sent1
    let (sent2, node₁) = send_status ops node
    m2 ← sent2
    let delay = intercept m2 (intercept m1 new_delay)
    delayed_rows (ops.literal 0 0) (release_all true false delay).0
        (new_vehicle {PublicKey = PublicKey} none)

  -- The loop of mode 8, with the time after it.
  unfoldable pub fuzzed_rows :
      F
      → List CanMessage
      → VehicleNode PublicKey
      → Result (List (ModeRow F) × (F × VehicleNode PublicKey))
  fuzzed_rows t [] vehicle = ok ([], (t, vehicle))
  fuzzed_rows t (frame ∷ frames) vehicle = do
    vehicle₁ ← hand_over ops frame vehicle
    (rows, after) ← fuzzed_rows (clock.add t (ops.literal 5 2)) frames vehicle₁
    ok (plain_row ops clock 8 t 0 0 0 0 0 ∷ rows, after)

  unfoldable pub mode_8_fuzzing : Chances → Result (List (ModeRow F))
  mode_8_fuzzing chances = do
    issued ← battery_and_cert crypto chances
    let (frames, source) = fuzz 3 chances.source
    (rows, after) ← fuzzed_rows (ops.literal 0 0) frames (new_vehicle {PublicKey = PublicKey} none)
    let (t, vehicle) = after
    let (sent, node) = send_status ops (new_battery_node the_battery)
    valid ← sent
    vehicle₁ ← hand_over ops (corrupt_status_frame valid source).0 vehicle
    ok (rows ++ plain_row ops clock 8 t 5 0 0 1 0 ∷ [])

  unfoldable pub mode_10_evasion : Chances → Result (List (ModeRow F))
  mode_10_evasion chances = do
    issued ← battery_and_cert crypto chances
    let factor = ops.literal 99 2
    let vehicle = new_vehicle {PublicKey = PublicKey} none
    msg1 ← inject_evasive_status ops factor factor factor (pos 1)
    vehicle₁ ← hand_over ops msg1 (record vehicle { replay = record { last_counter = pos 0 } })
    status1 ← decode_status ops msg1
    msg2 ← inject_fault_flag_evasion ops (pos 1) (pos 2)
    vehicle₂ ← hand_over ops msg2 vehicle₁
    status2 ← decode_status ops msg2
    ok (
        status_to_row clock 10 (ops.literal 0 0) status1 5 1 0 1 0
        ∷ status_to_row clock 10 (ops.literal 1 1) status2 5 1 0 1 0
        ∷ [])

  module _ (json : JsonOps) where
    unfoldable pub mode_9_session_hijack : Chances → Result (List (ModeRow F))
    mode_9_session_hijack chances = do
      issued ← battery_and_cert crypto chances
      let vehicle = new_vehicle (some issued.root_ca.public_key)
      cert_msg ← send_certificate json issued.certificate
      let (printed, vehicle₁) =
          receive_and_verify_certificate crypto json chances.now cert_msg vehicle
      valid ← printed
      let challenge = chances.nonce
      let (nonce_msg, vehicle₂) = send_nonce challenge none vehicle₁
      encoded ← nonce_msg
      let frame : CanMessage = record { arbitration_id = nonce_id; content = challenge }
      let (stored, node) = receive_nonce frame (new_battery_node the_battery)
      let sig = sign_message crypto (chances.sign_coins 1) issued.private_key challenge
      let sig_msg : CanMessage = record { arbitration_id = signature_id; content = sig }
      verified ← receive_and_verify_signature crypto json sig_msg vehicle₂
      session_msg ← send_session_id (create_session chances.token the_battery.battery_id)
      session_id ← receive_session_id session_msg
      let (captured, hijack) = capture_session session_msg new_hijack
      done ← captured
      replayed ← replay_session hijack
      vehicle₃ ← hand_over ops replayed vehicle₂
      let t = clock.add (ops.literal 0 0) (ops.literal 1 1)
      ok (
          plain_row ops clock 9 (ops.literal 0 0) 5 1 0 0 85
          ∷ plain_row ops clock 9 t 5 1 1 0 0
          ∷ [])

    -- The loop of mode 11.
    unfoldable pub tampered_rows :
        Moment
        → PublicKey
        → F
        → List Certificate
        → VehicleNode PublicKey
        → Result (List (ModeRow F))
    tampered_rows now key t [] vehicle = ok []
    tampered_rows now key t (cert ∷ certs) vehicle = do
      valid ← verify_certificate crypto now cert key
      cert_msg ← send_certificate json cert
      let (printed, vehicle₁) = receive_and_verify_certificate crypto json now cert_msg vehicle
      again ← printed
      let auth = if valid then 1 else 0
      rows ← tampered_rows now key (clock.add t (ops.literal 1 1)) certs vehicle₁
      ok (plain_row ops clock 11 t 2 auth 0 0 0 ∷ rows)

    unfoldable pub mode_11_certificate_tampering : Chances → Result (List (ModeRow F))
    mode_11_certificate_tampering chances = do
      issued ← battery_and_cert crypto chances
      let key = issued.root_ca.public_key
      let pub_bytes = serialize_public_key crypto issued.public_key
      expired ←
          create_expired_certificate crypto chances.utc_now (chances.sign_coins 2) issued.root_ca
            (codes "BAT001") (codes "TESLA") pub_bytes
      rogue ←
          create_self_signed_certificate crypto chances.rogue_coins (chances.sign_coins 3)
            (codes "BAT001") (codes "TESLA") pub_bytes
      tampered ← tamper_certificate_field (set_battery_id (codes "BAT_EVIL")) issued.certificate
      tampered_rows chances.now key (ops.literal 0 0) (expired ∷ rogue ∷ tampered ∷ [])
          (new_vehicle (some key))

    -- Every mode has keys of its own.
    unfoldable pub generate_extra_modes : (ℕ → Chances) → Result (List (ModeRow F))
    generate_extra_modes chances = do
      rows_6 ← mode_6_mitm (chances 6)
      rows_7 ← mode_7_delay (chances 7)
      rows_8 ← mode_8_fuzzing (chances 8)
      rows_9 ← mode_9_session_hijack (chances 9)
      rows_10 ← mode_10_evasion (chances 10)
      rows_11 ← mode_11_certificate_tampering (chances 11)
      ok (rows_6 ++ rows_7 ++ rows_8 ++ rows_9 ++ rows_10 ++ rows_11)
