-- ===== src/Integration/Orchestrator/Justified.antt =====
-- What an active session of a whole run rests on.
use batt_lock.Base.{
  ◌≡◌, refl, sym, ap, ◌∙◌, Bool-cases, inl, inr, true, List, [], ◌∷◌, ◌++◌, some, ok, >>=-eq-ok,
}
use mathlib.Core.Path.{subst}
use batt_lock.Base.Utf8.{encode}
use batt_lock.Base.Decimal.{decimal}
use batt_lock.Base.Json.{JsonOps}
use batt_lock.Can.Message.{Bytes, CanMessage}
use batt_lock.Can.Codec.{decode_certificate}
use batt_lock.Can.Vehicle.{
  VehicleNode, send_nonce, send_auth_request, receive_and_verify_certificate,
}
use batt_lock.Can.Battery.{
  BatteryNode, battery_like, sign_and_respond, receive_nonce, send_certificate,
}
use batt_lock.Can.Transport.{send, receive}
use batt_lock.Crypto.Signatures.{serialize_public_key}
use batt_lock.Crypto.Library.{CryptoOps}
use batt_lock.Crypto.Models.{Certificate}
use batt_lock.Crypto.Certificates.{verify_certificate, new_root_ca, create_certificate}
use batt_lock.Crypto.Auth.{Battery, new_battery, battery_public_key, create_challenge}
use batt_lock.Protocol.StateMachine.{on_hello_received, on_certificate_verified, on_challenge_sent}
use batt_lock.Integration.Orchestrator.{
  Inputs, active, World, BattLockOrchestrator, battery_name, serial_name, manufacturer_name,
  log_can_message, bus_send, receive_logged, transition, phase_10, phase_9, phase_8, phase_7,
  phase_6, run_phases,
}
use batt_lock.Integration.Orchestrator.Safety.{IsSigned, phase_11-IsSigned}
use batt_lock.Integration.Orchestrator.Kept.{
  first_of, rest_of, some_of, send_nonce_kept, receive_and_verify_certificate_kept,
  receive_logged-Keeps, phase_11-Keeps,
}

module _ {PrivateKey PublicKey : Type 0} (crypto : CryptoOps PrivateKey PublicKey)
    (json : JsonOps) where
  -- The answer of the battery of the world `w'`, which the vehicle accepted as it stands in `w'`.
  record HasAnswered (inputs : Inputs) (w' : World crypto) : Type 0 where
    frame : CanMessage
    made : sign_and_respond (battery_like crypto) inputs.sign_coins w'.battery_node ≡ ok frame
    signed : IsSigned crypto json frame w'.vehicle

  phase_10-HasAnswered :
      (inputs : Inputs) (w w' : World crypto) (challenge : CanMessage)
      → w.bus.queue ≡ challenge ∷ []
      → phase_10 crypto json inputs w ≡ ok (active, w')
      → HasAnswered inputs w' × (w'.vehicle ≡ w.vehicle)
  unfolding phase_10 receive_nonce log_can_message bus_send send
  phase_10-HasAnswered inputs w w' challenge waiting h =
      let ((received, w₁), e, r) = >>=-eq-ok (receive_logged crypto w) _ h in
      let node = (receive_nonce received w₁.battery_node).1 in
      let (sig_msg, f, q) =
        >>=-eq-ok (sign_and_respond (battery_like crypto) inputs.sign_coins node) _ r in
      let ((vehicle, _), was) = receive_logged-Keeps crypto json w w₁ received e in
      let empty : [] ≡ w₁.bus.queue = rest_of (sym waiting ∙ was) in
      let (frame, rest, next, signed) = phase_11-IsSigned crypto json inputs _ w' q in
      let (vehicle', node') = phase_11-Keeps crypto json inputs _ w' q in
      let queue : sig_msg ∷ [] ≡ frame ∷ rest =
        ap (λ (l : List CanMessage). l ++ sig_msg ∷ []) empty ∙ next in
      let same : frame ≡ sig_msg = sym (first_of queue) in
      (
        record {
          frame = sig_msg;
          made =
              ap
                (λ (n : BatteryNode (Battery crypto)).
                  sign_and_respond (battery_like crypto) inputs.sign_coins n)
                node'
              ∙ f;
          signed =
              subst (λ (m : CanMessage). IsSigned crypto json m w'.vehicle) same
                (subst (IsSigned crypto json frame) (sym vehicle') signed);
        },
        vehicle' ∙ vehicle,
      )

  phase_9-HasAnswered :
      (inputs : Inputs) (w w' : World crypto)
      → w.bus.queue ≡ []
      → phase_9 crypto json inputs w ≡ ok (active, w')
      → (stamp : Bytes) × (encode (decimal inputs.timestamp) ≡ ok stamp)
        × HasAnswered inputs w'
        × (w'.vehicle ≡ record w.vehicle { challenge_data = some (inputs.nonce ++ stamp) })
  unfolding phase_9 transition log_can_message bus_send create_challenge send
  phase_9-HasAnswered inputs w w' empty h =
      let (msg, e, r) =
        >>=-eq-ok (send_nonce inputs.nonce (some inputs.timestamp) w.vehicle).0 _ h in
      let (stamp, encoded, kept) = send_nonce_kept inputs.nonce inputs.timestamp w.vehicle msg e in
      elim (Bool-cases (on_challenge_sent w.state_machine).0) [
        | inr failed ↦ cc (rw failed at r)
        | inl sent ↦
            let (answered, vehicle) =
              phase_10-HasAnswered inputs _ w' msg
                (ap (λ (l : List CanMessage). l ++ msg ∷ []) empty) (rw sent at r) in
            (stamp, encoded, answered, vehicle ∙ kept)
      ]

  -- What the world `w'` at the end of a run with an active session shows: the vehicle holds the certificate
  -- that was sent, which verifies under `root_ca_key`, and the challenge of this run, and the answer that
  -- the battery makes is a signature of that challenge under the key in that certificate.
  pub record IsJustified (inputs : Inputs) (issued : Certificate) (root_ca_key : PublicKey)
      (w' : World crypto) : Type 0 where
    pub message : CanMessage
    pub certificate : Certificate
    pub sent : send_certificate json issued ≡ ok message
    pub decoded : decode_certificate json message ≡ ok certificate
    pub stored : w'.vehicle.stored_certificate ≡ some certificate
    pub certified : verify_certificate crypto inputs.now certificate root_ca_key ≡ ok true
    pub stamp : Bytes
    pub encoded : encode (decimal inputs.timestamp) ≡ ok stamp
    pub challenge : w'.vehicle.challenge_data ≡ some (inputs.nonce ++ stamp)
    pub answer : CanMessage
    pub made : sign_and_respond (battery_like crypto) inputs.sign_coins w'.battery_node ≡ ok answer
    pub key : PublicKey
    pub loaded : crypto.load_pem_public_key certificate.public_key ≡ ok key
    pub verified : crypto.verify key answer.content (inputs.nonce ++ stamp) ≡ ok tt

  phase_9-IsJustified :
      (inputs : Inputs) (issued certificate : Certificate) (message : CanMessage)
      (root_ca_key : PublicKey) (w w' : World crypto)
      → w.bus.queue ≡ []
      → send_certificate json issued ≡ ok message
      → decode_certificate json message ≡ ok certificate
      → verify_certificate crypto inputs.now certificate root_ca_key ≡ ok true
      → w.vehicle.stored_certificate ≡ some certificate
      → phase_9 crypto json inputs w ≡ ok (active, w')
      → IsJustified inputs issued root_ca_key w'
  phase_9-IsJustified inputs issued certificate message root_ca_key w w' empty sent decoded
        certified held h =
      let (stamp, encoded, answered, vehicle) = phase_9-HasAnswered inputs w w' empty h in
      let signed = answered.signed in
      let stored : w'.vehicle.stored_certificate ≡ some certificate =
        ap (λ (v : VehicleNode PublicKey). v.stored_certificate) vehicle ∙ held in
      let challenge : w'.vehicle.challenge_data ≡ some (inputs.nonce ++ stamp) =
        ap (λ (v : VehicleNode PublicKey). v.challenge_data) vehicle in
      let same : signed.certificate ≡ certificate = some_of (sym signed.stored ∙ stored) in
      let asked : signed.challenge ≡ inputs.nonce ++ stamp =
        some_of (sym signed.sent ∙ challenge) in
      record {
        message = message;
        certificate = certificate;
        sent = sent;
        decoded = decoded;
        stored = stored;
        certified = certified;
        stamp = stamp;
        encoded = encoded;
        challenge = challenge;
        answer = answered.frame;
        made = answered.made;
        key = signed.key;
        loaded =
            ap (λ (c : Certificate). crypto.load_pem_public_key c.public_key) (sym same)
            ∙ signed.loaded;
        verified =
            ap (λ (c : Bytes). crypto.verify signed.key answered.frame.content c) (sym asked)
            ∙ signed.verified;
      }

  phase_8-IsJustified :
      (inputs : Inputs) (issued : Certificate) (message : CanMessage) (root_ca_key : PublicKey)
      (w w' : World crypto)
      → w.bus.queue ≡ []
      → send_certificate json issued ≡ ok message
      → w.vehicle.root_ca_public_key ≡ some root_ca_key
      → phase_8 crypto json inputs message w ≡ ok (active, w')
      → IsJustified inputs issued root_ca_key w'
  unfolding phase_8 transition
  phase_8-IsJustified inputs issued message root_ca_key w w' empty sent given h =
      elim (Bool-cases (on_hello_received w.state_machine).0) [
        | inr unseen ↦ cc (rw unseen at h)
        | inl seen ↦
            let (verdict, e, r) =
              >>=-eq-ok (receive_and_verify_certificate crypto json inputs.now message w.vehicle).0
                _ (rw seen at h) in
            elim (Bool-cases verdict) [
              | inr bad ↦ cc (rw bad at r)
              | inl good ↦
                  let (certificate, key, decoded, has, ok_key, kept) =
                    receive_and_verify_certificate_kept crypto json inputs.now message w.vehicle
                      (rw good at e) in
                  let same : key ≡ root_ca_key = some_of (sym has ∙ given) in
                  elim (Bool-cases
                    (on_certificate_verified (on_hello_received w.state_machine).1).0) [
                      | inr early ↦ cc (rw (good, early) at r)
                      | inl verified ↦
                          phase_9-IsJustified inputs issued certificate message root_ca_key _ w'
                            empty sent decoded (rw same at ok_key) kept (rw (good, verified) at r)
                    ]
            ]
      ]

  phase_6-IsJustified :
      (inputs : Inputs) (issued : Certificate) (w w' : World crypto) (root_ca_key : PublicKey)
      → w.bus.queue ≡ []
      → w.vehicle.root_ca_public_key ≡ some root_ca_key
      → phase_6 crypto json inputs issued w ≡ ok (active, w')
      → IsJustified inputs issued root_ca_key w'
  unfolding phase_6 phase_7 log_can_message bus_send send receive
  phase_6-IsJustified inputs issued w w' root_ca_key empty given h =
      let (cert_msg, e, r) = >>=-eq-ok (send_certificate json issued) _ h in
      let ((received, w₁), f, q) = >>=-eq-ok (receive_logged crypto _) _ r in
      let ((vehicle, _), was) = receive_logged-Keeps crypto json _ w₁ received f in
      let alone : cert_msg ∷ [] ≡ received ∷ w₁.bus.queue =
        sym (sent_first w.bus.queue empty cert_msg) ∙ was in
      phase_8-IsJustified inputs issued received root_ca_key w₁ w' (sym (rest_of alone))
        (e ∙ ap (λ (m : CanMessage). ok m) (first_of alone))
        (ap (λ (v : VehicleNode PublicKey). v.root_ca_public_key) vehicle ∙ given) q
    where
      -- The request is taken off the bus before the certificate is sent.
      sent_first :
          (queue : List CanMessage)
          → queue ≡ []
          → (m : CanMessage)
          → (receive (record { queue = queue ++ send_auth_request ∷ [] })).1.queue ++ m ∷ []
            ≡ m ∷ []
      sent_first [] e m = refl
      sent_first (x ∷ xs) e m = cc

  -- A run, whatever managers it starts with, ends in an active session only in a world in which the vehicle
  -- holds the certificate that was issued and sent in this run, as it was decoded, which the key of this
  -- run's root CA verifies at the time of the run, and this run's nonce followed by its timestamp as the
  -- challenge, and the frame that the battery answers with holds a signature of that challenge under the key
  -- in that certificate.
  pub run_phases-IsJustified :
      (inputs : Inputs) (orchestrator : BattLockOrchestrator) (w' : World crypto)
      → run_phases crypto json inputs orchestrator ≡ ok (active, w')
      → (issued : Certificate) × (create_certificate crypto inputs.certificate_coins
            (new_root_ca crypto inputs.ca_coins)
            battery_name
            manufacturer_name
            (serialize_public_key crypto (
              battery_public_key crypto (
                new_battery crypto inputs.battery_coins battery_name serial_name
                  manufacturer_name)))
            inputs.issue_date
            inputs.expiry_date
          ≡ ok issued)
        × IsJustified inputs issued (new_root_ca crypto inputs.ca_coins).public_key w'
  unfolding run_phases
  run_phases-IsJustified inputs orchestrator w' h =
      let (issued, made, r) = >>=-eq-ok (create_certificate crypto _ _ _ _ _ _ _) _ h in
      (issued, made, phase_6-IsJustified inputs issued _ w' _ refl refl r)
