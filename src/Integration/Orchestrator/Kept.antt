-- ===== src/Integration/Orchestrator/Kept.antt =====
-- What the phases keep of the nodes and of the bus.
use batt_lock.Base.{
  ◌≡◌, refl, sym, ap, ◌∙◌, Bool-cases, inl, inr, true, List, [], ◌∷◌, ◌++◌, Option, none, some,
  Result, ok, err, >>=-eq-ok, ℕ,
}
use batt_lock.Base.Utf8.{encode}
use batt_lock.Base.Decimal.{decimal}
use batt_lock.Base.Json.{JsonOps}
use batt_lock.Base.Dates.{Moment}
use batt_lock.Can.Message.{Bytes, CanMessage}
use batt_lock.Can.Codec.{decode_certificate}
use batt_lock.Can.Vehicle.{
  VehicleNode, challenge_bytes, send_nonce, send_session_id, receive_and_verify_certificate,
  receive_and_verify_signature,
}
use batt_lock.Can.Battery.{receive_session_id}
use batt_lock.Can.Transport.{receive}
use batt_lock.Crypto.Library.{CryptoOps}
use batt_lock.Crypto.Models.{Certificate}
use batt_lock.Crypto.Certificates.{verify_certificate}
use batt_lock.Protocol.StateMachine.{
  on_authenticated, on_session_established, get_state, same_state, active_session,
}
use batt_lock.Integration.Orchestrator.{
  Inputs, Outcome, active, World, log_can_message, bus_send, receive_logged, transition,
  phase_accept, phase_session, phase_11,
}

pub first_of : {a b : CanMessage} {x y : List CanMessage} → a ∷ x ≡ b ∷ y → a ≡ b
first_of h = cc

pub rest_of : {a b : CanMessage} {x y : List CanMessage} → a ∷ x ≡ b ∷ y → x ≡ y
rest_of h = cc

pub some_of {ℓ} : {A : Type ℓ} {a b : A} → some a ≡ some b → a ≡ b
some_of h = cc

module _ {PublicKey : Type 0} where
  -- The challenge that was sent is the one that is kept.
  pub send_nonce_kept :
      (nonce : Bytes) (timestamp : ℕ) (v : VehicleNode PublicKey) (message : CanMessage)
      → (send_nonce nonce (some timestamp) v).0 ≡ ok message
      → (stamp : Bytes) × (encode (decimal timestamp) ≡ ok stamp)
        × ((send_nonce nonce (some timestamp) v).1
            ≡ record v { challenge_data = some (nonce ++ stamp) })
  unfolding send_nonce challenge_bytes
  send_nonce_kept nonce timestamp v message h = go (encode (decimal timestamp)) refl
    where
      go :
          (r : Result Bytes)
          → encode (decimal timestamp) ≡ r
          → (stamp : Bytes) × (encode (decimal timestamp) ≡ ok stamp)
            × ((send_nonce nonce (some timestamp) v).1
                ≡ record v { challenge_data = some (nonce ++ stamp) })
      go (ok stamp) e = (stamp, e, rw (send_nonce, e) refl)
      go (err x) e = cc (rw (send_nonce, e) at h)

world_of {ℓ} : {A : Type ℓ} {a b : A} → ok a ≡ ok b → a ≡ b
world_of h = cc

module _ {PrivateKey PublicKey : Type 0} (crypto : CryptoOps PrivateKey PublicKey)
    (json : JsonOps) where
  -- The certificate that was accepted is the one that is kept.
  pub receive_and_verify_certificate_kept :
      (now : Moment) (message : CanMessage) (v : VehicleNode PublicKey)
      → (receive_and_verify_certificate crypto json now message v).0 ≡ ok true
      → (certificate : Certificate) × (key : PublicKey) × (decode_certificate json message
          ≡ ok certificate)
        × (v.root_ca_public_key ≡ some key)
        × (verify_certificate crypto now certificate key ≡ ok true)
        × ((receive_and_verify_certificate crypto json now message v).1.stored_certificate
            ≡ some certificate)
  unfolding receive_and_verify_certificate
  receive_and_verify_certificate_kept now message v h =
      go (decode_certificate json message) v.root_ca_public_key refl refl
    where
      go :
          (c : Result Certificate) (k : Option PublicKey)
          → decode_certificate json message ≡ c
          → v.root_ca_public_key ≡ k
          → (certificate : Certificate) × (key : PublicKey) × (decode_certificate json message
              ≡ ok certificate)
            × (v.root_ca_public_key ≡ some key)
            × (verify_certificate crypto now certificate key ≡ ok true)
            × ((receive_and_verify_certificate crypto json now message v).1.stored_certificate
                ≡ some certificate)
      go (err e) k d f = cc (rw (receive_and_verify_certificate, d) at h)
      go (ok c) none d f = cc (rw (receive_and_verify_certificate, d, f) at h)
      go (ok c) (some k) d f = (
        c,
        k,
        d,
        f,
        rw (receive_and_verify_certificate, d, f) at h,
        rw (receive_and_verify_certificate, d, f) refl,
      )

  -- The nodes are as they were.
  abbrev pub Keeps : World crypto → World crypto → Type 0
  Keeps w w' = (w'.vehicle ≡ w.vehicle) × (w'.battery_node ≡ w.battery_node)

  -- The frame that is received is the oldest one on the bus.
  pub receive_logged-Keeps :
      (w w₁ : World crypto) (frame : CanMessage)
      → receive_logged crypto w ≡ ok (frame, w₁)
      → Keeps w w₁ × (w.bus.queue ≡ frame ∷ w₁.bus.queue)
  unfolding receive_logged receive log_can_message
  receive_logged-Keeps w w₁ frame h = go w.bus.queue refl
    where
      go :
          (queue : List CanMessage)
          → w.bus.queue ≡ queue
          → Keeps w w₁ × (w.bus.queue ≡ frame ∷ w₁.bus.queue)
      go [] e = cc (rw e at h)
      go (m ∷ ms) e =
          let r = world_of (rw e at h) in
          let same : m ≡ frame = ap (λ (p : CanMessage × World crypto). p.0) r in
          let left : ms ≡ w₁.bus.queue = ap (λ (p : CanMessage × World crypto). p.1.bus.queue) r in
          (
            (
              sym (ap (λ (p : CanMessage × World crypto). p.1.vehicle) r),
              sym (ap (λ (p : CanMessage × World crypto). p.1.battery_node) r),
            ),
            e ∙ ap (λ (f : CanMessage). f ∷ ms) same ∙ ap (λ (q : List CanMessage). frame ∷ q) left,
          )

  phase_accept-Keeps : (w w' : World crypto) → phase_accept crypto w ≡ ok (active, w') → Keeps w w'
  unfolding phase_accept
  phase_accept-Keeps w w' h =
      elim (Bool-cases (same_state (get_state w.state_machine) active_session)) [
        | inl same ↦
            let r = world_of (rw same at h) in
            (
              sym (ap (λ (p : Outcome × World crypto). p.1.vehicle) r),
              sym (ap (λ (p : Outcome × World crypto). p.1.battery_node) r),
            )
        | inr other ↦ cc (rw other at h)
      ]

  phase_session-Keeps :
      (inputs : Inputs) (w w' : World crypto)
      → phase_session crypto inputs w ≡ ok (active, w')
      → Keeps w w'
  unfolding phase_session transition log_can_message bus_send
  phase_session-Keeps inputs w w' h =
      let (msg, e, r) = >>=-eq-ok (send_session_id _) _ h in
      let ((received, w₂), f, q) = >>=-eq-ok (receive_logged crypto _) _ r in
      let (read, g, p) = >>=-eq-ok (receive_session_id received) _ q in
      let ((vehicle, node), _) = receive_logged-Keeps _ w₂ received f in
      elim (Bool-cases (on_session_established w₂.state_machine).0) [
        | inl established ↦
            let (vehicle', node') = phase_accept-Keeps _ w' (rw established at p) in
            (vehicle' ∙ vehicle, node' ∙ node)
        | inr failed ↦ cc (rw failed at p)
      ]

  pub phase_11-Keeps :
      (inputs : Inputs) (w w' : World crypto)
      → phase_11 crypto json inputs w ≡ ok (active, w')
      → Keeps w w'
  unfolding phase_11 transition
  phase_11-Keeps inputs w w' h =
      let ((frame, w₁), e, r) = >>=-eq-ok (receive_logged crypto w) _ h in
      let (result, f, q) =
        >>=-eq-ok (receive_and_verify_signature crypto json frame w₁.vehicle) _ r in
      let ((vehicle, node), _) = receive_logged-Keeps w w₁ frame e in
      elim (Bool-cases result) [
        | inr bad ↦ cc (rw bad at q)
        | inl good ↦ elim (Bool-cases (on_authenticated w₁.state_machine).0) [
          | inr failed ↦ cc (rw (good, failed) at q)
          | inl authenticated ↦
              let (vehicle', node') =
                phase_session-Keeps inputs _ w' (rw (good, authenticated) at q) in
              (vehicle' ∙ vehicle, node' ∙ node)
        ]
      ]
