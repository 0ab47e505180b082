-- ===== src/Can/RunSimulation.antt =====
-- `can/simulation/run_simulation.py`: `main`, which runs the attacks one after another. Each numbered part of
-- it is a function of the scene. Of what it prints, the lines of the vehicle are kept as verdicts.
pub mod Steps
pub mod Packed
pub mod Attacked
pub mod Hijacked
pub mod Fuzzed
use batt_lock.Base.{
  ℕ, Bool, true, false, [], ◌∷◌, length, none, some, Result, ok, err, ◌>>=◌, attribute_error,
  type_error, List,
}
use batt_lock.Base.Texts.{Text, codes}
use batt_lock.Base.Int.{pos}
use batt_lock.Base.Float.{FloatOps}
use batt_lock.Base.Json.{JsonOps}
use batt_lock.Base.Dates.{Moment}
use batt_lock.Can.Message.{Bytes, CanMessage, signature_id}
use batt_lock.Can.Battery.{identity_like, send_identity, send_certificate}
use batt_lock.Can.Vehicle.{
  receive_and_verify_certificate, receive_and_verify_signature, send_nonce, send_auth_result,
  send_session_id,
}
use batt_lock.Crypto.Library.{CryptoOps}
use batt_lock.Crypto.Models.{Certificate}
use batt_lock.Crypto.Signatures.{generate_keypair, sign_message, serialize_public_key}
use batt_lock.Crypto.Certificates.{RootCa, new_root_ca, create_certificate}
use batt_lock.Crypto.Auth.{create_session}
use batt_lock.Attacks.Bus.{
  new_capture, capture, replay, block, flood, new_delay, intercept, release_all, new_hijack,
  capture_session, replay_session,
}
use batt_lock.Attacks.Telemetry.{
  Changes, inject_fake_status, inject_evasive_status, inject_fault_flag_evasion, modify,
}
use batt_lock.Attacks.Certificates.{
  create_expired_certificate, create_self_signed_certificate, tamper_certificate_field,
  set_battery_id,
}
use batt_lock.Attacks.Fuzzing.{Source, fuzz, corrupt_status_frame}
use batt_lock.Can.RunSimulation.Steps.{
  Scene, the_battery, new_scene, bus_send, bus_receive, receive_battery, deliver, deliver_all,
  next_status,
}

-- What a run takes from the clock and from the random source.
pub record Chances : Type 0 where
  pub key_coins : ℕ
  pub ca_coins : ℕ
  pub rogue_coins : ℕ
  -- One for each certificate and for the signature.
  pub sign_coins : ℕ → ℕ
  pub now : Moment
  pub utc_now : Moment
  pub nonce : Bytes
  pub token : Text
  -- What the module random draws.
  pub source : Source

module _ {F : Type 0} (ops : FloatOps F) where
  -- 85.0 V
  abbrev pub tampering : Changes ops
  tampering = record {
    voltage = some (ops.literal 85 0);
    current = none;
    temperature = none;
    soc = none;
    soh = none;
    fault_flags = none;
  }

module _ {F PublicKey : Type 0} (ops : FloatOps F) where
  unfoldable pub part_1 : Scene F PublicKey → Result (Scene F PublicKey)
  part_1 scene = do
    identity ← send_identity identity_like scene.battery_node
    scene₁ ← deliver ops identity scene
    (status, scene₂) ← next_status ops scene₁
    deliver ops status scene₂

  unfoldable pub part_2 : Scene F PublicKey → Result (Scene F PublicKey)
  part_2 scene = do
    (valid_status, scene₁) ← next_status ops scene
    scene₂ ← deliver ops valid_status scene₁
    elim (replay (capture valid_status new_capture)) [
      | none ↦ err attribute_error
      | some replayed ↦ deliver ops replayed scene₂
    ]

  unfoldable pub part_3 : Scene F PublicKey → Result (Scene F PublicKey)
  part_3 scene = do injected ← inject_fake_status ops; deliver ops injected scene

  unfoldable pub part_4 : Scene F PublicKey → Result (Scene F PublicKey)
  part_4 scene = do
    (status, scene₁) ← next_status ops scene
    elim (block status) [ none ↦ ok scene₁ | some blocked ↦ deliver ops blocked scene₁ ]

  unfoldable pub part_5 : Scene F PublicKey → Result (Scene F PublicKey)
  part_5 scene = do
    (captured, scene₁) ← next_status ops scene
    modified ← modify ops (tampering ops) (capture captured new_capture)
    deliver ops modified scene₁

  unfoldable pub part_6 : Scene F PublicKey → Result (Scene F PublicKey)
  part_6 scene = do
    (m1, scene₁) ← next_status ops scene
    (m2, scene₂) ← next_status ops scene₁
    deliver_all ops (release_all true false (intercept m2 (intercept m1 new_delay))).0 scene₂

  unfoldable pub part_7 : Source → Scene F PublicKey → Result (Scene F PublicKey)
  part_7 source scene = do
    let (frames, source₁) = fuzz 5 source
    scene₁ ← deliver_all ops frames scene
    (status, scene₂) ← next_status ops scene₁
    deliver ops (corrupt_status_frame status source₁).0 scene₂

  -- The replay window is reset first, and the three factors are 0.99.
  unfoldable pub part_9 : Scene F PublicKey → Result (Scene F PublicKey)
  part_9 scene = do
    let vehicle_node = record scene.vehicle_node { replay = record { last_counter = pos 0 } }
    let factor = ops.literal 99 2
    evasive ← inject_evasive_status ops factor factor factor (pos 1)
    scene₁ ← deliver ops evasive (record scene { vehicle_node = vehicle_node })
    flagged ← inject_fault_flag_evasion ops (pos 1) (pos 2)
    deliver ops flagged scene₁

  -- Parts 1 to 6.
  unfoldable pub telemetry_parts : Scene F PublicKey → Result (Scene F PublicKey)
  telemetry_parts scene = do
    scene₁ ← part_1 scene
    scene₂ ← part_2 scene₁
    scene₃ ← part_3 scene₂
    scene₄ ← part_4 scene₃
    scene₅ ← part_5 scene₄
    part_6 scene₅

module _ {PrivateKey PublicKey F : Type 0} (crypto : CryptoOps PrivateKey PublicKey)
    (json : JsonOps) (ops : FloatOps F) where
  -- A certificate goes over the bus to the vehicle; whether it verifies is printed only.
  unfoldable pub present : Moment → Certificate → Scene F PublicKey → Result (Scene F PublicKey)
  present now certificate scene = do
    message ← send_certificate json certificate
    (received, scene₁) ← bus_receive (bus_send message scene)
    let (printed, vehicle_node) =
        receive_and_verify_certificate crypto json now received scene₁.vehicle_node
    valid ← printed
    ok (record scene₁ { vehicle_node = vehicle_node })

  -- From the session of part 8 on.
  unfoldable pub part_8_hijack : Text → Scene F PublicKey → Result (Scene F PublicKey)
  part_8_hijack token scene = do
    session_msg ← send_session_id (create_session token the_battery.battery_id)
    scene₁ ← receive_battery (bus_send session_msg scene)
    let (captured, hijack) = capture_session session_msg new_hijack
    done ← captured
    replayed ← replay_session hijack
    deliver ops replayed scene₁

  unfoldable pub part_8 :
      Chances → PrivateKey → Certificate → Scene F PublicKey → Result (Scene F PublicKey)
  part_8 chances private_key certificate scene = do
    scene₁ ← present chances.now certificate scene
    let (encoded, vehicle_node) = send_nonce chances.nonce none scene₁.vehicle_node
    nonce_msg ← encoded
    scene₂ ← receive_battery (bus_send nonce_msg (record scene₁ { vehicle_node = vehicle_node }))
    elim scene₂.battery_node.stored_challenge_data [
      | none ↦ err type_error
      | some challenge ↦ do
        let signature = sign_message crypto (chances.sign_coins 1) private_key challenge
        let sig_msg : CanMessage = record { arbitration_id = signature_id; content = signature }
        (received, scene₃) ← bus_receive (bus_send sig_msg scene₂)
        verified ← receive_and_verify_signature crypto json received scene₃.vehicle_node
        scene₄ ← receive_battery (bus_send (send_auth_result true) scene₃)
        part_8_hijack chances.token scene₄
    ]

  -- The certificate that the demonstration makes, also for the field that is tampered with.
  unfoldable pub own_certificate : ℕ → RootCa crypto → Bytes → Result Certificate
  own_certificate coins root_ca key =
      create_certificate crypto coins root_ca (codes "BAT001") (codes "TESLA") key
        (codes "2026-06-01") (codes "2031-06-01")

  unfoldable pub part_10 :
      Chances → RootCa crypto → Bytes → Scene F PublicKey → Result (Scene F PublicKey)
  part_10 chances root_ca key scene = do
    expired_cert ←
        create_expired_certificate crypto chances.utc_now (chances.sign_coins 2) root_ca
          (codes "BAT001") (codes "TESLA") key
    scene₁ ← present chances.now expired_cert scene
    rogue_cert ←
        create_self_signed_certificate crypto chances.rogue_coins (chances.sign_coins 3)
          (codes "BAT001") (codes "TESLA") key
    scene₂ ← present chances.now rogue_cert scene₁
    issued ← own_certificate (chances.sign_coins 4) root_ca key
    tampered_cert ← tamper_certificate_field (set_battery_id (codes "BAT_EVIL")) issued
    present chances.now tampered_cert scene₂

  queue_all : List CanMessage → Scene F PublicKey → Scene F PublicKey
  queue_all [] scene = scene
  queue_all (m ∷ ms) scene = queue_all ms (bus_send m scene)

  -- Part 11, with the number of messages that is printed at its end.
  unfoldable pub part_11 : Scene F PublicKey → ℕ × Scene F PublicKey
  unfolding queue_all
  part_11 scene = let queued = queue_all (flood 50) scene in (length queued.bus.queue, queued)

  unfoldable pub main : Chances → Result (ℕ × Scene F PublicKey)
  main chances = do
    let (private_key, public_key) = generate_keypair crypto chances.key_coins
    let root_ca = new_root_ca crypto chances.ca_coins
    let key = serialize_public_key crypto public_key
    certificate ← own_certificate (chances.sign_coins 0) root_ca key
    scene₁ ← telemetry_parts ops (new_scene root_ca.public_key)
    scene₂ ← part_7 ops chances.source scene₁
    scene₃ ← part_8 chances private_key certificate scene₂
    scene₄ ← part_9 ops scene₃
    scene₅ ← part_10 chances root_ca key scene₄
    ok (part_11 scene₅)
