-- ===== src/Integration/Orchestrator.antt =====
-- `integration/orchestrator.py`: `BattLockOrchestrator.run`, from the root CA to the session. Each phase is
-- a function that ends by calling the next one, as an early `return` wants it. The texts of the
-- log, the timers and the summary of phase 12 are left out.
pub mod Completes
pub mod Safety
pub mod Kept
pub mod Justified
use batt_lock.Base.{
  ℕ, not, Bool, true, false, if◌then◌else◌, List, [], ◌∷◌, length, Option, none, some, Result, ok,
  err, ◌>>=◌, attribute_error, assertion_error,
}
use batt_lock.Base.Texts.{Text}
use batt_lock.Base.Json.{JsonOps}
use batt_lock.Base.Dates.{Moment}
use batt_lock.Can.Message.{Bytes, CanMessage}
use batt_lock.Can.Transport.{CanBus, new_bus, send, receive}
use batt_lock.Can.Vehicle.{
  VehicleNode, new_vehicle, send_auth_request, receive_and_verify_certificate, send_nonce,
  receive_and_verify_signature, send_session_id,
}
use batt_lock.Can.Battery.{
  BatteryNode, battery_like, new_battery_node, send_certificate, receive_nonce, sign_and_respond,
  receive_session_id,
}
use batt_lock.Crypto.Library.{CryptoOps}
use batt_lock.Crypto.Models.{Certificate}
use batt_lock.Crypto.Signatures.{serialize_public_key}
use batt_lock.Crypto.Certificates.{new_root_ca, create_certificate}
use batt_lock.Crypto.Auth.{
  Battery, new_battery, battery_public_key, create_challenge, create_session,
}
use batt_lock.Protocol.StateMachine.{
  StateMachine, new_machine, on_hello_received, on_certificate_verified, on_challenge_sent,
  on_authenticated, on_session_established, get_state, same_state, active_session,
}
use batt_lock.Protocol.SessionManager.{SessionManager, new_manager, add_session}
use batt_lock.Integration.Metrics.{MetricsCollector, new_metrics, record_can}

-- What a run takes from the clock and from the random source.
pub record Inputs : Type 0 where
  pub ca_coins : ℕ
  pub battery_coins : ℕ
  pub certificate_coins : ℕ
  pub sign_coins : ℕ
  -- Today and in 365 days.
  pub issue_date : Text
  pub expiry_date : Text
  -- When the certificate is verified.
  pub now : Moment
  pub nonce : Bytes
  pub timestamp : ℕ
  -- What `secrets.token_hex` returns.
  pub token : Text

-- "BAT001", "SN0001" and "BATTLOCK".
abbrev pub battery_name : Text
battery_name = 66 ∷ 65 ∷ 84 ∷ 48 ∷ 48 ∷ 49 ∷ []

abbrev pub serial_name : Text
serial_name = 83 ∷ 78 ∷ 48 ∷ 48 ∷ 48 ∷ 49 ∷ []

abbrev pub manufacturer_name : Text
manufacturer_name = 66 ∷ 65 ∷ 84 ∷ 84 ∷ 76 ∷ 79 ∷ 67 ∷ 75 ∷ []

-- How `run` ends: the early returns, the refusal of a signature, or an active session.
pub data Outcome : Type 0 where
  aborted denied active : Outcome

pub record BattLockOrchestrator : Type 0 where
  pub metrics : MetricsCollector (Unit {0})
  pub session_manager : SessionManager
  pub state_machine : StateMachine

abbrev pub new_orchestrator : BattLockOrchestrator
new_orchestrator = record {
  metrics = new_metrics;
  session_manager = new_manager;
  state_machine = new_machine;
}

module _ {PrivateKey PublicKey : Type 0} (crypto : CryptoOps PrivateKey PublicKey) where
  -- The orchestrator with the nodes and the bus of a run.
  pub record World : Type 0 where
    pub metrics : MetricsCollector (Unit {0})
    pub session_manager : SessionManager
    pub state_machine : StateMachine
    pub bus : CanBus
    pub vehicle : VehicleNode PublicKey
    pub battery_node : BatteryNode (Battery crypto)

  -- The latency that is recorded is always the same.
  unfoldable pub log_can_message : CanMessage → World → World
  log_can_message frame w = record w { metrics = record_can (length frame.content) tt w.metrics }

  unfoldable pub bus_send : CanMessage → World → World
  bus_send frame w = record w { bus = send frame w.bus }

  -- `bus.receive()`, and the log of the frame, which raises if there is none.
  unfoldable pub receive_logged : World → Result (CanMessage × World)
  receive_logged w =
      let (received, bus) = receive w.bus in
      elim received [
        | none ↦ err attribute_error
        | some frame ↦ ok (frame, log_can_message frame (record w { bus = bus }))
      ]

  -- `self._transition(name, fn)`
  unfoldable pub transition : (StateMachine → Bool × StateMachine) → World → Bool × World
  transition fn w =
      let (result, state_machine) = fn w.state_machine in
      (result, record w { state_machine = state_machine })

  -- The end of phase 11: the acceptance test.
  unfoldable pub phase_accept : World → Result (Outcome × World)
  phase_accept w =
      if same_state (get_state w.state_machine) active_session
      then ok (active, w)
      else err assertion_error

  unfoldable pub phase_session : Inputs → World → Result (Outcome × World)
  phase_session inputs w = do
    let session = create_session inputs.token w.battery_node.battery.identity.battery_id
    let w₁ = record w {
      session_manager = add_session session.session_id session.battery_id w.session_manager;
    }
    session_msg ← send_session_id session
    (received, w₂) ← receive_logged (bus_send session_msg (log_can_message session_msg w₁))
    read ← receive_session_id received
    let (established, w₃) = transition on_session_established w₂
    if established then phase_accept w₃ else ok (aborted, w₃)

module _ {PrivateKey PublicKey : Type 0} (crypto : CryptoOps PrivateKey PublicKey)
    (json : JsonOps) where
  unfoldable pub phase_11 : Inputs → World crypto → Result (Outcome × World crypto)
  phase_11 inputs w = do
    (received, w₁) ← receive_logged crypto w
    result ← receive_and_verify_signature crypto json received w₁.vehicle
    let (authenticated, w₂) = transition crypto on_authenticated w₁
    let next = phase_session crypto inputs w₂
    if result then if authenticated then next else ok (aborted, w₂) else ok (denied, w₁)

  unfoldable pub phase_10 : Inputs → World crypto → Result (Outcome × World crypto)
  phase_10 inputs w = do
    (received, w₁) ← receive_logged crypto w
    let (challenge_data, node) = receive_nonce received w₁.battery_node
    sig_msg ← sign_and_respond (battery_like crypto) inputs.sign_coins node
    phase_11 inputs (
        log_can_message crypto sig_msg
          (bus_send crypto sig_msg (record w₁ { battery_node = node })))

  unfoldable pub phase_9 : Inputs → World crypto → Result (Outcome × World crypto)
  phase_9 inputs w = do
    let challenge = create_challenge inputs.nonce inputs.timestamp
    let (encoded, vehicle) = send_nonce challenge.nonce (some challenge.timestamp) w.vehicle
    nonce_msg ← encoded
    let w₁ =
        log_can_message crypto nonce_msg
          (bus_send crypto nonce_msg (record w { vehicle = vehicle }))
    let (sent, w₂) = transition crypto on_challenge_sent w₁
    let next = phase_10 inputs w₂
    if sent then next else ok (aborted, w₂)

  unfoldable pub phase_8 : Inputs → CanMessage → World crypto → Result (Outcome × World crypto)
  phase_8 inputs received w =
      let (seen, w₁) = transition crypto on_hello_received w in
      let verification = do
        let (verdict, vehicle) =
            receive_and_verify_certificate crypto json inputs.now received w₁.vehicle
        cert_valid ← verdict
        let w₂ = record w₁ { vehicle = vehicle }
        let (verified, w₃) = transition crypto on_certificate_verified w₂
        let next = phase_9 inputs w₃
        if cert_valid then if verified then next else ok (aborted, w₃) else ok (aborted, w₂)
      in if seen then verification else ok (aborted, w₁)

  unfoldable pub phase_7 : Inputs → Certificate → World crypto → Result (Outcome × World crypto)
  phase_7 inputs certificate w = do
    cert_msg ← send_certificate json certificate
    (received, w₁) ←
        receive_logged crypto (log_can_message crypto cert_msg (bus_send crypto cert_msg w))
    phase_8 inputs received w₁

  -- The battery takes the request off the bus and does not look at it.
  unfoldable pub phase_6 : Inputs → Certificate → World crypto → Result (Outcome × World crypto)
  phase_6 inputs certificate w =
      let auth_msg = send_auth_request in
      let w₁ = log_can_message crypto auth_msg (bus_send crypto auth_msg w) in
      phase_7 inputs certificate (record w₁ { bus = (receive w₁.bus).1 })

  -- Phases 2 to 5, and all that follow.
  unfoldable pub run_phases : Inputs → BattLockOrchestrator → Result (Outcome × World crypto)
  run_phases inputs orchestrator = do
    let root_ca = new_root_ca crypto inputs.ca_coins
    let battery = new_battery crypto inputs.battery_coins battery_name serial_name manufacturer_name
    let battery_public_key_bytes = serialize_public_key crypto (battery_public_key crypto battery)
    certificate ←
        create_certificate crypto inputs.certificate_coins root_ca battery_name manufacturer_name
          battery_public_key_bytes inputs.issue_date inputs.expiry_date
    phase_6 inputs certificate (record {
      metrics = orchestrator.metrics;
      session_manager = orchestrator.session_manager;
      state_machine = orchestrator.state_machine;
      bus = new_bus;
      vehicle = new_vehicle (some root_ca.public_key);
      battery_node = new_battery_node (record battery { certificate = some certificate });
    })
