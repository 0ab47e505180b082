-- ===== src/Integration/Orchestrator/Safety.antt =====
-- What an active session rests on.
use batt_lock.Base.{
  ◌≡◌, refl, sym, ap, ◌∙◌, Bool-cases, inl, inr, true, List, [], ◌∷◌, Option, none, some, Result,
  ok, err, >>=-eq-ok,
}
use batt_lock.Base.Json.{JsonOps}
use batt_lock.Base.Dates.{Moment}
use batt_lock.Can.Message.{Bytes, CanMessage}
use batt_lock.Can.Transport.{receive}
use batt_lock.Can.Codec.{decode_signature, decode_certificate}
use batt_lock.Can.Vehicle.{
  VehicleNode, receive_and_verify_signature, receive_and_verify_certificate,
}
use batt_lock.Crypto.Library.{CryptoOps}
use batt_lock.Crypto.Models.{Certificate}
use batt_lock.Crypto.Signatures.{deserialize_public_key, verify_signature}
use batt_lock.Crypto.Certificates.{verify_certificate}
use batt_lock.Crypto.Certificates.Verification.{returns_false-true}
use batt_lock.Protocol.StateMachine.{on_hello_received}
use batt_lock.Integration.Orchestrator.{
  Inputs, active, World, log_can_message, receive_logged, transition, phase_8, phase_11,
}

pair_of {ℓ} : {A : Type ℓ} {a b : A} → ok a ≡ ok b → a ≡ b
pair_of h = cc

module _ {PrivateKey PublicKey : Type 0} (crypto : CryptoOps PrivateKey PublicKey)
    (json : JsonOps) where
  -- Behind a signature that the vehicle accepts.
  pub record IsSigned (message : CanMessage) (v : VehicleNode PublicKey) : Type 0 where
    pub certificate : Certificate
    pub challenge : Bytes
    pub key : PublicKey
    pub stored : v.stored_certificate ≡ some certificate
    pub sent : v.challenge_data ≡ some challenge
    pub loaded : crypto.load_pem_public_key certificate.public_key ≡ ok key
    pub verified : crypto.verify key message.content challenge ≡ ok tt

  -- The vehicle accepts a signature only if it has stored a certificate and sent a challenge, and the
  -- signature verifies over that challenge under the key in that certificate.
  pub receive_and_verify_signature_sound :
      (message : CanMessage) (v : VehicleNode PublicKey)
      → receive_and_verify_signature crypto json message v ≡ ok true
      → IsSigned message v
  unfolding receive_and_verify_signature deserialize_public_key verify_signature decode_signature
  receive_and_verify_signature_sound message v h =
      go v.stored_certificate v.challenge_data refl refl
    where
      go :
          (c : Option Certificate) (d : Option Bytes)
          → v.stored_certificate ≡ c
          → v.challenge_data ≡ d
          → IsSigned message v
      go none d e f = cc (rw e at h)
      go (some c) none e f = cc (rw (e, f) at h)
      go (some c) (some d) e f =
          let (key, l, r) =
            >>=-eq-ok (crypto.load_pem_public_key c.public_key) _ (rw (e, f) at h) in
          record {
            certificate = c;
            challenge = d;
            key = key;
            stored = e;
            sent = f;
            loaded = l;
            verified = returns_false-true _ r;
          }

  pub receive_logged_sound :
      (w w₁ : World crypto) (frame : CanMessage)
      → receive_logged crypto w ≡ ok (frame, w₁)
      → (rest : List CanMessage) × (w.bus.queue ≡ frame ∷ rest) × (w₁.vehicle ≡ w.vehicle)
  unfolding receive_logged receive log_can_message
  receive_logged_sound w w₁ frame h = go w.bus.queue refl
    where
      go :
          (queue : List CanMessage)
          → w.bus.queue ≡ queue
          → (rest : List CanMessage) × (w.bus.queue ≡ frame ∷ rest) × (w₁.vehicle ≡ w.vehicle)
      go [] e = cc (rw e at h)
      go (m ∷ ms) e =
          let r = pair_of (rw e at h) in
          let same : m ≡ frame = ap (λ (p : CanMessage × World crypto). p.0) r in
          (
            ms,
            e ∙ ap (λ (f : CanMessage). f ∷ ms) same,
            sym (ap (λ (p : CanMessage × World crypto). p.1.vehicle) r),
          )

  -- The vehicle accepts a certificate only if it can be decoded and verifies under the key that the
  -- vehicle was given; without a key none is accepted.
  pub receive_and_verify_certificate_sound :
      (now : Moment) (message : CanMessage) (v : VehicleNode PublicKey)
      → (receive_and_verify_certificate crypto json now message v).0 ≡ ok true
      → (certificate : Certificate) × (key : PublicKey) × (decode_certificate json message
          ≡ ok certificate)
        × (v.root_ca_public_key ≡ some key)
        × (verify_certificate crypto now certificate key ≡ ok true)
  unfolding receive_and_verify_certificate
  receive_and_verify_certificate_sound now message v h =
      go (decode_certificate json message) v.root_ca_public_key refl refl
    where
      go :
          (c : Result Certificate) (k : Option PublicKey)
          → decode_certificate json message ≡ c
          → v.root_ca_public_key ≡ k
          → (certificate : Certificate) × (key : PublicKey) × (decode_certificate json message
              ≡ ok certificate)
            × (v.root_ca_public_key ≡ some key)
            × (verify_certificate crypto now certificate key ≡ ok true)
      go (err e) k d f = cc (rw (receive_and_verify_certificate, d) at h)
      go (ok c) none d f = cc (rw (receive_and_verify_certificate, d, f) at h)
      go (ok c) (some k) d f = (c, k, d, f, rw (receive_and_verify_certificate, d, f) at h)

  -- Phase 11 ends in an active session only if the next frame on the bus is a signature that the vehicle
  -- accepts.
  pub phase_11-IsSigned :
      (inputs : Inputs) (w w' : World crypto)
      → phase_11 crypto json inputs w ≡ ok (active, w')
      → (frame : CanMessage) × (rest : List CanMessage) × (w.bus.queue ≡ frame ∷ rest)
        × IsSigned frame w.vehicle
  unfolding phase_11
  phase_11-IsSigned inputs w w' h =
      let ((frame, w₁), e, r) = >>=-eq-ok (receive_logged crypto w) _ h in
      let (result, f, q) =
        >>=-eq-ok (receive_and_verify_signature crypto json frame w₁.vehicle) _ r in
      let (rest, waiting, same) = receive_logged_sound w w₁ frame e in
      elim (Bool-cases result) [
        | inl good ↦ (
          frame,
          rest,
          waiting,
          rw same at (receive_and_verify_signature_sound frame w₁.vehicle (rw good at f)),
        )
        | inr bad ↦ cc (rw bad at q)
      ]

  -- Phase 8, and with it the run, ends in an active session only if the certificate that the vehicle
  -- received verifies under the root CA's key that the vehicle was given.
  pub phase_8_certified :
      (inputs : Inputs) (received : CanMessage) (w w' : World crypto)
      → phase_8 crypto json inputs received w ≡ ok (active, w')
      → (certificate : Certificate) × (key : PublicKey) × (decode_certificate json received
          ≡ ok certificate)
        × (w.vehicle.root_ca_public_key ≡ some key)
        × (verify_certificate crypto inputs.now certificate key ≡ ok true)
  unfolding phase_8 transition
  phase_8_certified inputs received w w' h =
      elim (Bool-cases (on_hello_received w.state_machine).0) [
        | inr unseen ↦ cc (rw unseen at h)
        | inl seen ↦
            let (verdict, e, r) =
              >>=-eq-ok (receive_and_verify_certificate crypto json inputs.now received w.vehicle).0
                _ (rw seen at h) in
            elim (Bool-cases verdict) [
              | inl good ↦
                  receive_and_verify_certificate_sound inputs.now received w.vehicle (rw good at e)
              | inr bad ↦ cc (rw bad at r)
            ]
      ]
