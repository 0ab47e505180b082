-- ===== src/Can/Vehicle/History.antt =====
-- The replay window of the vehicle, seen from the frames that it has received.
use batt_lock.Base.{
  ◌==◌, ◌≡◌, ◌≢◌, ◌↔◌, refl, ap, ◌∙◌, inl, inr, Bool-cases, false, if◌then◌else◌, List, [], ◌∷◌,
  length, Result, ok, arith,
}
use batt_lock.Base.Int.{ℤ, leb_ℤ, ◌≤ℤ◌}
use batt_lock.Base.Float.{FloatOps}
use batt_lock.Can.Message.{CanMessage, auth_request_id, battery_status, session_id_id}
use batt_lock.Can.Status.{BatteryStatus, decode_status, status_of_bytes}
use batt_lock.Can.Vehicle.{VehicleNode, Verdict, replay_attack, judge, handle_status, receive}
use batt_lock.Can.Vehicle.Telemetry.{
  Handled, stale, fresh, handle_status-Handled, handle_status_malformed, handle_session_id_replay,
  receive_status, after_all,
}

-- The larger of two ints, and the largest of some.
abbrev pub max_ℤ : ℤ → ℤ → ℤ
max_ℤ a b = if leb_ℤ a b then b else a

abbrev pub highest : ℤ → List ℤ → ℤ
highest m [] = m
highest m (n ∷ ns) = highest (max_ℤ m n) ns

module _ {F : Type 0} (ops : FloatOps F) where
  -- The counters of the status frames of 19 bytes among frames, whatever the vehicle said of them.
  unfoldable pub seen : List CanMessage → List ℤ
  seen [] = []
  seen (m ∷ ms) =
      if m.arbitration_id == battery_status
      then (if length m.content == 19
          then (status_of_bytes ops m.content).counter ∷ seen ms
          else seen ms)
      else seen ms

  read_status :
      (m : CanMessage)
      → length m.content ≡ 19
      → decode_status ops m ≡ ok (status_of_bytes ops m.content)
  unfolding decode_status
  read_status m size = rw size refl

  judge_no_replay : (s : BatteryStatus F) → judge ops s ≢ replay_attack
  unfolding judge
  judge_no_replay s h = ground arith

module _ {F PublicKey : Type 0} (ops : FloatOps F) where
  status_moves :
      (m : CanMessage) (v : VehicleNode PublicKey) (s : BatteryStatus F)
      → Handled ops m v s
      → (handle_status ops m v).1.replay.last_counter ≡ max_ℤ v.replay.last_counter s.counter
  status_moves m v s (stale old e) = rw e (ground arith)
  status_moves m v s (fresh new e) = rw e (ground arith)

  other_keeps :
      (m : CanMessage) (v : VehicleNode PublicKey)
      → (m.arbitration_id == battery_status) ≡ false
      → (receive ops m v).1.replay ≡ v.replay
  unfolding receive
  other_keeps m v other = elim (Bool-cases (m.arbitration_id == auth_request_id)) [
    | inl auth ↦ rw auth refl
    | inr noauth ↦ elim (Bool-cases (m.arbitration_id == session_id_id)) [
      | inl session ↦ rw (noauth, other, session) (handle_session_id_replay ops m v)
      | inr nosession ↦ rw (noauth, other, nosession) refl
    ]
  ]

  pub after_all-highest :
      (ms : List CanMessage) (v : VehicleNode PublicKey)
      → (after_all ops ms v).replay.last_counter ≡ highest v.replay.last_counter (seen ops ms)
  unfolding after_all seen
  after_all-highest [] v = refl
  after_all-highest (m ∷ ms) v =
      let later = after_all-highest ms (receive ops m v).1 in
      elim (Bool-cases (m.arbitration_id == battery_status)) [
        | inr other ↦ rw other (
            later
            ∙ ap (λ c. highest c (seen ops ms)) (ap (λ r. r.last_counter) (other_keeps m v other)))
        | inl status ↦
            let id : m.arbitration_id ≡ battery_status = ground arith in
            let same : (receive ops m v).1 ≡ (handle_status ops m v).1 =
              ap (λ (p : Result (Verdict F) × VehicleNode PublicKey). p.1)
                (receive_status ops m v id) in
            elim (Bool-cases (length m.content == 19)) [
              | inr short ↦
                  let kept : (receive ops m v).1 ≡ v =
                    same
                    ∙ ap (λ (p : Verdict F × VehicleNode PublicKey). p.1)
                        (handle_status_malformed ops m v short) in
                  rw (status, short)
                    (later
                      ∙ ap
                          (λ (u : VehicleNode PublicKey).
                            highest u.replay.last_counter (seen ops ms))
                          kept)
              | inl whole ↦
                  let size : length m.content ≡ 19 = ground arith in
                  let s = status_of_bytes ops m.content in
                  let moved =
                    ap (λ (u : VehicleNode PublicKey). u.replay.last_counter) same
                    ∙ status_moves m v s
                        (handle_status-Handled ops m v s size (read_status ops m size)) in
                  rw (status, whole) (later ∙ ap (λ c. highest c (seen ops ms)) moved)
            ]
      ]

  -- The vehicle keeps one counter, and that is as good as the whole history: after any frames, of any kind and
  -- from anyone, a status frame of 19 bytes is reported as a replay exactly if its counter is not above the
  -- largest of the counter at the start and the counters of all status frames of 19 bytes since.
  pub receive_replay_iff :
      (ms : List CanMessage) (m : CanMessage) (v : VehicleNode PublicKey) (s : BatteryStatus F)
      → m.arbitration_id ≡ battery_status
      → length m.content ≡ 19
      → decode_status ops m ≡ ok s
      → ((receive ops m (after_all ops ms v)).0 ≡ ok replay_attack)
        ↔ (s.counter ≤ℤ highest v.replay.last_counter (seen ops ms))
  receive_replay_iff ms m v s id size d =
      let w = after_all ops ms v in
      let reached = after_all-highest ms v in
      let verdict : (receive ops m w).0 ≡ ok (handle_status ops m w).0 =
        ap (λ (p : Result (Verdict F) × VehicleNode PublicKey). p.0) (receive_status ops m w id) in
      go w reached verdict (handle_status-Handled ops m w s size d)
    where
      go :
          (w : VehicleNode PublicKey)
          → w.replay.last_counter ≡ highest v.replay.last_counter (seen ops ms)
          → (receive ops m w).0 ≡ ok (handle_status ops m w).0
          → Handled ops m w s
          → ((receive ops m w).0 ≡ ok replay_attack)
            ↔ (s.counter ≤ℤ highest v.replay.last_counter (seen ops ms))
      go w reached verdict (stale old e) = rw (verdict, e, ← reached) (λ h. old, λ h. refl)
      go w reached verdict (fresh new e) =
          rw (verdict, e, ← reached)
            (λ h. absurd (judge_no_replay ops s (cc h)), λ h. absurd (omega arith))
