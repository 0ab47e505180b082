-- ===== src/Integration/Orchestrator/Completes.antt =====
-- A run of the orchestrator ends in an active session.
use batt_lock.Base.{
  ℕ, ◌≡◌, refl, ◌∙◌, true, false, [], ◌∷◌, ◌++◌, All, list_eq_refl, none, some, Result, ok,
}
use batt_lock.Base.Texts.{Text}
use batt_lock.Base.Utf8.{IsScalar, encode, encode_total, ascii-IsScalar}
use batt_lock.Base.Json.{JsonOps, IsJson}
use batt_lock.Base.Dates.{Date, Moment, strptime, is_past}
use batt_lock.Base.Decimal.{decimal, decimal_ascii}
use batt_lock.Can.Message.{Bytes, CanMessage}
use batt_lock.Can.Transport.{new_bus, send, receive}
use batt_lock.Can.Codec.{
  decode_certificate, encode_signature, decode_signature, encode_nonce, decode_nonce,
}
use batt_lock.Can.Codec.RoundTrip.{text_frames, IsIssuable, decode_certificate-encode_certificate}
use batt_lock.Can.Vehicle.{
  VehicleNode, new_vehicle, send_session_id, receive_and_verify_signature, send_nonce,
  challenge_bytes, receive_and_verify_certificate,
}
use batt_lock.Can.Battery.{
  BatteryNode, receive_session_id, receive_nonce, sign_and_respond, send_certificate,
}
use batt_lock.Crypto.Library.{CryptoOps, IsCrypto}
use batt_lock.Crypto.Models.{Certificate}
use batt_lock.Crypto.Signatures.{
  serialize_public_key, deserialize_public_key, verify_signature, sign_message, returns_false,
  generate_keypair,
}
use batt_lock.Crypto.Certificates.{create_certificate, new_root_ca, verify_certificate}
use batt_lock.Crypto.Certificates.Verification.{
  verify_certificate-create_certificate, create_certificate-public_key,
}
use batt_lock.Crypto.Auth.{
  create_session, create_challenge, Battery, battery_sign, sign_with, new_battery,
  battery_public_key, new_software_keys,
}
use batt_lock.Protocol.StateMachine.{
  disconnected, cert_verified, challenge_sent, authenticated, active_session, on_hello_received,
  on_certificate_verified, on_challenge_sent, on_authenticated, on_session_established, get_state,
}
use batt_lock.Protocol.SessionManager.{SessionManager, get_battery, get_battery-add_session}
use batt_lock.Integration.Metrics.{MetricsCollector}
use batt_lock.Integration.Orchestrator.{
  Inputs, Outcome, active, World, log_can_message, bus_send, receive_logged, transition,
  phase_accept, phase_session, phase_11, phase_10, phase_9, phase_8, phase_7, phase_6, run_phases,
  new_orchestrator, battery_name, manufacturer_name,
}

module _ {PrivateKey PublicKey : Type 0} (crypto : CryptoOps PrivateKey PublicKey) where
  -- A run that ended as it should: the session is active and belongs to the battery, and no frame is
  -- left on the bus.
  pub record IsEstablished (inputs : Inputs) (name : Text)
      (result : Result (Outcome × World crypto)) : Type 0 where
    pub world : World crypto
    pub ended : result ≡ ok (active, world)
    pub state : world.state_machine.state ≡ active_session
    pub session : get_battery inputs.token world.session_manager ≡ some name
    pub idle : world.bus ≡ new_bus

  session-IsEstablished :
      (inputs : Inputs) (metrics : MetricsCollector (Unit {0})) (sessions : SessionManager)
      (vehicle : VehicleNode PublicKey) (node : BatteryNode (Battery crypto))
      → All IsScalar inputs.token
      → IsEstablished inputs node.battery.identity.battery_id (
          phase_session crypto inputs (record {
            metrics = metrics;
            session_manager = sessions;
            state_machine = record { state = authenticated };
            bus = new_bus;
            vehicle = vehicle;
            battery_node = node;
          }))
  unfolding phase_session phase_accept transition receive_logged log_can_message bus_send send
      receive on_session_established get_state create_session send_session_id receive_session_id
  session-IsEstablished inputs metrics sessions vehicle node h =
      let id = node.battery.identity.battery_id in
      let (_, (m, e, _, d)) = text_frames [] (create_session inputs.token id) tt h in
      rw (e, d)
        (record {
          world = _;
          ended = refl;
          state = refl;
          session =
              get_battery-add_session inputs.token inputs.token id sessions
              ∙ rw (list_eq_refl inputs.token) refl;
          idle = refl;
        })

module _ {PrivateKey PublicKey : Type 0} (crypto : CryptoOps PrivateKey PublicKey)
    (laws : IsCrypto crypto) (json : JsonOps) where
  -- From the challenge on the bus: the battery signs it and the vehicle verifies the signature.
  signature-IsEstablished :
      (inputs : Inputs) (metrics : MetricsCollector (Unit {0})) (sessions : SessionManager)
      (vehicle : VehicleNode PublicKey) (node : BatteryNode (Battery crypto))
      (certificate : Certificate) (challenge : Bytes)
      → All IsScalar inputs.token
      → crypto.load_pem_public_key certificate.public_key
        ≡ ok (crypto.public_key node.battery.keys.private_key)
      → IsEstablished crypto inputs node.battery.identity.battery_id (
          phase_10 crypto json inputs (record {
            metrics = metrics;
            session_manager = sessions;
            state_machine = record { state = challenge_sent };
            bus = record { queue = encode_nonce challenge ∷ [] };
            vehicle = record vehicle {
              stored_certificate = some certificate;
              challenge_data = some challenge;
            };
            battery_node = node;
          }))
  unfolding phase_10 phase_11 transition receive_logged log_can_message bus_send send receive
      on_authenticated receive_nonce decode_nonce encode_nonce sign_and_respond battery_sign
      sign_with sign_message encode_signature decode_signature receive_and_verify_signature
      deserialize_public_key verify_signature returns_false
  signature-IsEstablished inputs metrics sessions vehicle node certificate challenge h key =
      rw (key, laws.verify-sign inputs.sign_coins node.battery.keys.private_key challenge)
        (session-IsEstablished crypto inputs _ sessions _ _ h)

  send_nonce_stamped :
      (nonce stamp : Bytes) (timestamp : ℕ) (v : VehicleNode PublicKey)
      → encode (decimal timestamp) ≡ ok stamp
      → send_nonce nonce (some timestamp) v
        ≡ (ok (encode_nonce (nonce ++ stamp)), record v { challenge_data = some (nonce ++ stamp) })
  unfolding send_nonce challenge_bytes
  send_nonce_stamped nonce stamp timestamp v e = rw (send_nonce, e)

  receive_and_verify_known :
      (now : Moment) (m : CanMessage) (v : VehicleNode PublicKey) (certificate : Certificate)
      (root_ca_key : PublicKey)
      → decode_certificate json m ≡ ok certificate
      → receive_and_verify_certificate crypto json now m
          (record v { root_ca_public_key = some root_ca_key })
        ≡ (
          verify_certificate crypto now certificate root_ca_key,
          record v { root_ca_public_key = some root_ca_key; stored_certificate = some certificate },
        )
  unfolding receive_and_verify_certificate
  receive_and_verify_known now m v certificate root_ca_key d =
      rw (receive_and_verify_certificate, d)

  -- From the verified certificate: the vehicle sends its challenge.
  challenge-IsEstablished :
      (inputs : Inputs) (metrics : MetricsCollector (Unit {0})) (sessions : SessionManager)
      (vehicle : VehicleNode PublicKey) (node : BatteryNode (Battery crypto))
      (certificate : Certificate)
      → All IsScalar inputs.token
      → crypto.load_pem_public_key certificate.public_key
        ≡ ok (crypto.public_key node.battery.keys.private_key)
      → IsEstablished crypto inputs node.battery.identity.battery_id (
          phase_9 crypto json inputs (record {
            metrics = metrics;
            session_manager = sessions;
            state_machine = record { state = cert_verified };
            bus = new_bus;
            vehicle = record vehicle { stored_certificate = some certificate };
            battery_node = node;
          }))
  unfolding phase_9 transition log_can_message bus_send send on_challenge_sent create_challenge
  challenge-IsEstablished inputs metrics sessions vehicle node certificate h key =
      let (stamp, e) =
        encode_total (decimal inputs.timestamp)
          (ascii-IsScalar _ (decimal_ascii inputs.timestamp)) in
      rw
        (send_nonce_stamped inputs.nonce stamp inputs.timestamp
          (record vehicle { stored_certificate = some certificate }) e)
        (signature-IsEstablished inputs _ sessions vehicle node certificate (inputs.nonce ++ stamp)
          h key)

  -- From a certificate that the trusted root CA issued for the battery's key.
  certificate-IsEstablished :
      (inputs : Inputs) (metrics : MetricsCollector (Unit {0})) (sessions : SessionManager)
      (vehicle : VehicleNode PublicKey) (node : BatteryNode (Battery crypto))
      (certificate : Certificate) (root_ca_key : PublicKey)
      → IsJson json
      → IsIssuable certificate
      → verify_certificate crypto inputs.now certificate root_ca_key ≡ ok true
      → All IsScalar inputs.token
      → crypto.load_pem_public_key certificate.public_key
        ≡ ok (crypto.public_key node.battery.keys.private_key)
      → IsEstablished crypto inputs node.battery.identity.battery_id (
          phase_6 crypto json inputs certificate (record {
            metrics = metrics;
            session_manager = sessions;
            state_machine = record { state = disconnected };
            bus = new_bus;
            vehicle = record vehicle { root_ca_public_key = some root_ca_key };
            battery_node = node;
          }))
  unfolding phase_6 phase_7 phase_8 transition receive_logged log_can_message bus_send send receive
      on_hello_received on_certificate_verified send_certificate
  certificate-IsEstablished inputs metrics sessions vehicle node certificate root_ca_key jlaws v
        accepted h key =
      let (m, e, _, d) = decode_certificate-encode_certificate json certificate jlaws v in
      rw (e, receive_and_verify_known inputs.now m vehicle certificate root_ca_key d, accepted)
        (challenge-IsEstablished inputs _ sessions
          (record vehicle { root_ca_public_key = some root_ca_key }) node certificate h key)

  -- A run with new managers ends in an active session of the battery that is its own, whatever
  -- randomness the keys and signatures draw, if the certificate that it issues can be written as JSON, the
  -- expiry date can be read and is not past, and the session token holds no surrogate.
  pub run_phases_completes :
      (inputs : Inputs) (certificate : Certificate) (date : Date)
      → IsJson json
      → create_certificate crypto inputs.certificate_coins
          (new_root_ca crypto inputs.ca_coins)
          battery_name
          manufacturer_name
          (crypto.public_bytes
            (crypto.public_key (crypto.generate_private_key inputs.battery_coins)))
          inputs.issue_date
          inputs.expiry_date
        ≡ ok certificate
      → IsIssuable certificate
      → strptime inputs.expiry_date ≡ ok date
      → is_past inputs.now date ≡ false
      → All IsScalar inputs.token
      → IsEstablished crypto inputs battery_name (run_phases crypto json inputs new_orchestrator)
  unfolding run_phases new_battery new_software_keys generate_keypair battery_public_key
      serialize_public_key
  run_phases_completes inputs certificate date jlaws made v d current h =
      let accepted =
        verify_certificate-create_certificate crypto laws inputs.now inputs.ca_coins
          inputs.certificate_coins battery_name manufacturer_name
          (crypto.public_bytes
            (crypto.public_key (crypto.generate_private_key inputs.battery_coins)))
          inputs.issue_date inputs.expiry_date date certificate made d current in
      let key = create_certificate-public_key crypto _ _ _ _ _ _ _ certificate made in
      rw made (
        certificate-IsEstablished inputs _ _ (new_vehicle none) _ certificate _ jlaws v accepted h
          (rw key (laws.load-public_bytes _)))
