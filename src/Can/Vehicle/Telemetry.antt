-- ===== src/Can/Vehicle/Telemetry.antt =====
-- What the vehicle makes of status frames.
use batt_lock.Base.{
  ◌==◌, ◌≡◌, inl, inr, refl, ap, ◌∙◌, Bool-cases, false, List, [], ◌∷◌, length, Result, ok, arith,
}
use batt_lock.Base.Int.{◌<ℤ◌, ◌≤ℤ◌}
use batt_lock.Base.Float.{FloatOps}
use batt_lock.Can.Message.{CanMessage, auth_request_id, battery_status, session_id_id}
use batt_lock.Can.Status.{BatteryStatus, decode_status, status_of_bytes}
use batt_lock.Crypto.Counters.Replay.{validate_cases}
use batt_lock.Can.Vehicle.{
  VehicleNode, Verdict, malformed, replay_attack, judge, handle_status, handle_session_id, receive,
}

module _ {F : Type 0} (ops : FloatOps F) where
  pub decode_status_total :
      (m : CanMessage)
      → length m.content ≡ 19
      → (s : BatteryStatus F) × (decode_status ops m ≡ ok s)
  unfolding decode_status
  decode_status_total m h = (status_of_bytes ops m.content, rw h refl)

module _ {F PublicKey : Type 0} (ops : FloatOps F) where
  -- A frame of 19 bytes is always decoded, and its counter decides what happens then.
  pub data Handled (m : CanMessage) (v : VehicleNode PublicKey) (s : BatteryStatus F) : Type 0 where
    stale :
        s.counter ≤ℤ v.replay.last_counter
        → handle_status ops m v ≡ (replay_attack, v)
        → Handled m v s
    fresh :
        v.replay.last_counter <ℤ s.counter
        → handle_status ops m v
          ≡ (judge ops s, record v { replay = record { last_counter = s.counter } })
        → Handled m v s

  pub handle_status-Handled :
      (m : CanMessage) (v : VehicleNode PublicKey) (s : BatteryStatus F)
      → length m.content ≡ 19
      → decode_status ops m ≡ ok s
      → Handled m v s
  unfolding handle_status
  handle_status-Handled m v s h d = elim (validate_cases s.counter v.replay) [
    | inl (lt, e) ↦ fresh lt (rw (h, d, e))
    | inr (ge, e) ↦ stale ge (rw (h, d, e))
  ]

  -- Frames in the order of arrival, of any kind; what raises leaves the node as it was.
  unfoldable pub after_all : List CanMessage → VehicleNode PublicKey → VehicleNode PublicKey
  after_all [] v = v
  after_all (m ∷ ms) v = after_all ms (receive ops m v).1

  pub handle_status_malformed :
      (m : CanMessage) (v : VehicleNode PublicKey)
      → (length m.content == 19) ≡ false
      → handle_status ops m v ≡ (malformed, v)
  unfolding handle_status
  handle_status_malformed m v h = rw h

  -- The counter of a frame of 19 bytes is at most the last one afterwards.
  handle_status_reaches :
      (m : CanMessage) (v : VehicleNode PublicKey) (s : BatteryStatus F)
      → Handled m v s
      → (v.replay.last_counter ≤ℤ (handle_status ops m v).1.replay.last_counter)
        × (s.counter ≤ℤ (handle_status ops m v).1.replay.last_counter)
  handle_status_reaches m v s (stale ge e) = rw e (omega arith, omega arith)
  handle_status_reaches m v s (fresh lt e) = rw e (omega arith, omega arith)

  handle_status_grows :
      (m : CanMessage) (v : VehicleNode PublicKey)
      → v.replay.last_counter ≤ℤ (handle_status ops m v).1.replay.last_counter
  handle_status_grows m v = elim (Bool-cases (length m.content == 19)) [
    | inl same ↦
        let size : length m.content ≡ 19 = ground arith in
        let (s, d) = decode_status_total ops m size in
        (handle_status_reaches m v s (handle_status-Handled m v s size d)).0
    | inr differs ↦ rw (handle_status_malformed m v differs) (omega arith)
  ]

  pub handle_session_id_replay :
      (m : CanMessage) (v : VehicleNode PublicKey)
      → (handle_session_id {F = F} m v).1.replay ≡ v.replay
  unfolding handle_session_id
  handle_session_id_replay m v = ground arith

  pub receive_status :
      (m : CanMessage) (v : VehicleNode PublicKey)
      → m.arbitration_id ≡ battery_status
      → receive ops m v ≡ (ok (handle_status ops m v).0, (handle_status ops m v).1)
  unfolding receive
  receive_status m v i = ground arith

  receive_grows :
      (m : CanMessage) (v : VehicleNode PublicKey)
      → v.replay.last_counter ≤ℤ (receive ops m v).1.replay.last_counter
  unfolding receive
  receive_grows m v = elim (Bool-cases (m.arbitration_id == auth_request_id)) [
    | inl a ↦ rw a (omega arith)
    | inr a ↦ elim (Bool-cases (m.arbitration_id == battery_status)) [
      | inl b ↦ rw (a, b) (handle_status_grows m v)
      | inr b ↦ elim (Bool-cases (m.arbitration_id == session_id_id)) [
        | inl c ↦ rw (a, b, c) (rw (handle_session_id_replay m v) (omega arith))
        | inr c ↦ rw (a, b, c) (omega arith)
      ]
    ]
  ]

  after_all_grows :
      (ms : List CanMessage) (v : VehicleNode PublicKey)
      → v.replay.last_counter ≤ℤ (after_all ms v).replay.last_counter
  unfolding after_all
  after_all_grows [] v = omega arith
  after_all_grows (m ∷ ms) v =
      omega (arith, receive_grows m v, after_all_grows ms (receive ops m v).1)

  receive_stale :
      (m : CanMessage) (v : VehicleNode PublicKey) (s : BatteryStatus F)
      → m.arbitration_id ≡ battery_status
      → s.counter ≤ℤ v.replay.last_counter
      → Handled m v s
      → receive ops m v ≡ (ok replay_attack, v)
  receive_stale m v s i h (stale ge e) = receive_status m v i ∙ rw e
  receive_stale m v s i h (fresh lt e) = absurd (omega arith)

  -- A status frame whose counter is not above the last one is reported as a replay and changes
  -- nothing, whatever else it carries.
  pub receive_old :
      (m : CanMessage) (v : VehicleNode PublicKey) (s : BatteryStatus F)
      → m.arbitration_id ≡ battery_status
      → length m.content ≡ 19
      → decode_status ops m ≡ ok s
      → s.counter ≤ℤ v.replay.last_counter
      → receive ops m v ≡ (ok replay_attack, v)
  receive_old m v s i size d h = receive_stale m v s i h (handle_status-Handled m v s size d)

  -- A status frame of 19 bytes that has been received once is reported as a replay when it comes again,
  -- however it was judged the first time, and whatever frames came in between.
  pub receive_replayed :
      (m : CanMessage) (ms : List CanMessage) (v : VehicleNode PublicKey)
      → m.arbitration_id ≡ battery_status
      → length m.content ≡ 19
      → (receive ops m (after_all ms (receive ops m v).1)).0 ≡ ok replay_attack
  receive_replayed m ms v i size =
      let (s, d) = decode_status_total ops m size in
      let (_, passed) = handle_status_reaches m v s (handle_status-Handled m v s size d) in
      let first : (receive ops m v).1 ≡ (handle_status ops m v).1 =
        ap (λ (p : Result (Verdict F) × VehicleNode PublicKey). p.1) (receive_status m v i) in
      let reached : s.counter ≤ℤ (receive ops m v).1.replay.last_counter = rw first passed in
      let w = after_all ms (receive ops m v).1 in
      let old : s.counter ≤ℤ w.replay.last_counter =
        omega (arith, reached, after_all_grows ms (receive ops m v).1) in
      ap (λ (p : Result (Verdict F) × VehicleNode PublicKey). p.0) (receive_old m w s i size d old)
