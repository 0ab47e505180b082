-- ===== src/Simulink/Delayed.antt =====
-- The rows of mode 7.
use batt_lock.Base.{
  ℕ, ◌<◌, ◌≤◌, ◌≡◌, refl, ap, ◌∙◌, false, List, [], ◌∷◌, none, Result, ok, inl, inr, arith,
}
use batt_lock.Base.Int.{pos}
use batt_lock.Base.Float.{FloatOps, IsIeee}
use batt_lock.Base.Utf8.{encode, encode_char}
use batt_lock.Can.Message.{CanMessage}
use batt_lock.Can.Status.{encode_status}
use batt_lock.Can.Status.RoundTrip.{rounded, decode_status-encode_status, encode_status-id}
use batt_lock.Can.Battery.{own_status, send_status}
use batt_lock.Can.Vehicle.{VehicleNode, new_vehicle, Verdict, valid, replay_attack, receive}
use batt_lock.Can.Vehicle.Telemetry.{receive_old}
use batt_lock.Can.Vehicle.Genuine.{own_encoded, own_valid, receive-encode_status}
use batt_lock.Crypto.Library.{CryptoOps}
use batt_lock.Crypto.Certificates.{create_certificate, certificate_data, encode_value}
use batt_lock.Crypto.Counters.{next, validate}
use batt_lock.Crypto.Counters.Replay.{validate_cases}
use batt_lock.Attacks.Bus.{intercept, release_all}
use batt_lock.Simulink.Rows.{ModeRow, TimeOps, status_to_row}
use batt_lock.Simulink.Setup.{Chances, Issued, battery_and_cert, hand_over}
use batt_lock.Simulink.{delayed_rows, mode_7_delay}

module _ {PrivateKey PublicKey : Type 0} (crypto : CryptoOps PrivateKey PublicKey) where
  -- The certificate can always be made.
  battery_and_cert_ends :
      (chances : Chances) → (issued : Issued crypto) × (battery_and_cert crypto chances ≡ ok issued)
  unfolding battery_and_cert create_certificate certificate_data encode_value encode encode_char
  battery_and_cert_ends chances = (_, refl)

-- A counter that the vehicle has just seen is never fresh.
validate_seen :
    (c n : ℕ)
    → n ≤ c
    → validate (pos n) (record { last_counter = pos c }) ≡ (false, record { last_counter = pos c })
validate_seen c n old = elim (validate_cases (pos n) (record { last_counter = pos c })) [
  | inl (lt, e) ↦ absurd (omega arith)
  | inr (ge, e) ↦ e
]

module _ {F : Type 0} (ops : FloatOps F) where
  -- The row of a delayed status.
  abbrev pub replay_row : TimeOps F → F → ℕ → ModeRow F
  replay_row clock t n = status_to_row clock 7 t (rounded ops (own_status ops n)) 5 1 1 0 0

module _ {F : Type 0} (ops : FloatOps F) (ieee : IsIeee ops) {PublicKey : Type 0} where
  -- The vehicle with its last counter.
  abbrev pub after : ℕ → VehicleNode PublicKey
  after c = record (new_vehicle none) { replay = record { last_counter = pos c } }

  receive_fresh :
      (c n : ℕ) (m : CanMessage)
      → c < n
      → encode_status ops (own_status ops n) ≡ ok m
      → receive ops m (after c) ≡ (ok (valid (rounded ops (own_status ops n))), after n)
  receive_fresh c n m newer e =
      receive-encode_status ops ieee (own_status ops n) m (after c) e (omega arith)
      ∙ rw (own_valid ops ieee n) refl

  receive_stale :
      (c n : ℕ) (m : CanMessage)
      → n ≤ c
      → encode_status ops (own_status ops n) ≡ ok m
      → receive ops m (after c) ≡ (ok replay_attack, after c)
  receive_stale c n m old e =
      let s = own_status ops n in
      let (d, size) = decode_status-encode_status ops ieee s m e in
      receive_old ops m (after c) (rounded ops s) (encode_status-id ops s m e) size d (omega arith)

  hand_over_ends :
      (m : CanMessage) (v v' : VehicleNode PublicKey) (verdict : Verdict F)
      → receive ops m v ≡ (ok verdict, v')
      → hand_over ops m v ≡ ok v'
  unfolding hand_over
  hand_over_ends m v v' verdict e = rw e refl

  module _ {PrivateKey : Type 0} (crypto : CryptoOps PrivateKey PublicKey) (clock : TimeOps F) where
    delayed_step :
        (t : F) (c d n : ℕ) (m : CanMessage) (rest : List CanMessage) (rows : List (ModeRow F))
        → n ≤ d
        → encode_status ops (own_status ops n) ≡ ok m
        → hand_over ops m (after c) ≡ ok (after d)
        → delayed_rows crypto ops clock (clock.add t (ops.literal 1 1)) rest (after d) ≡ ok rows
        → delayed_rows crypto ops clock t (m ∷ rest) (after c)
          ≡ ok (replay_row ops clock t n ∷ rows)
    unfolding delayed_rows
    delayed_step t c d n m rest rows seen e given later =
        let (read, size) = decode_status-encode_status ops ieee (own_status ops n) m e in
        rw (given, read, validate_seen d n seen, later) refl

    -- Mode 7 always ends, and both of its rows count as replays: the older status, which comes second and
    -- which the vehicle does report as a replay, but also the newer one, which comes first and which the
    -- vehicle reports as valid.
    pub mode_7_delay_runs :
        (chances : Chances)
        → (mode_7_delay crypto ops clock chances
            ≡ ok (
                replay_row ops clock (ops.literal 0 0) 2
                ∷ replay_row ops clock (clock.add (ops.literal 0 0) (ops.literal 1 1)) 1
                ∷ []))
          × (newer : CanMessage) × (encode_status ops (own_status ops 2) ≡ ok newer)
          × ((receive ops newer (after 0)).0 ≡ ok (valid (rounded ops (own_status ops 2))))
          × (older : CanMessage) × (encode_status ops (own_status ops 1) ≡ ok older)
          × ((receive ops older (receive ops newer (after 0)).1).0 ≡ ok replay_attack)
    unfolding mode_7_delay send_status next intercept release_all
    mode_7_delay_runs chances =
        let (issued, certified) = battery_and_cert_ends crypto chances in
        let (m1, e1) = own_encoded ops ieee 1 (omega arith) in
        let (m2, e2) = own_encoded ops ieee 2 (omega arith) in
        let first = receive_fresh 0 2 m2 (omega arith) e2 in
        let second = receive_stale 2 1 m1 (omega arith) e1 in
        let zero_time = ops.literal 0 0 in
        let later_time = clock.add zero_time (ops.literal 1 1) in
        let ended : delayed_rows crypto ops clock (clock.add later_time (ops.literal 1 1)) []
              (after 2)
            ≡ ok [] =
          unfold delayed_rows in refl in
        let rows =
          delayed_step later_time 2 2 1 m1 [] [] (omega arith) e1
            (hand_over_ends m1 (after 2) (after 2) replay_attack second) ended in
        let all =
          delayed_step zero_time 0 2 2 m2 (m1 ∷ []) _ (omega arith) e2
            (hand_over_ends m2 (after 0) (after 2) _ first) rows in
        (
          rw (certified, e1, e2) all,
          m2,
          e2,
          ap (λ (p : Result (Verdict F) × VehicleNode PublicKey). p.0) first,
          m1,
          e1,
          rw first (ap (λ (p : Result (Verdict F) × VehicleNode PublicKey). p.0) second),
        )
