-- ===== src/Can/RunSimulation/Attacked.antt =====
-- What the vehicle prints in the first parts of the demonstration.
use batt_lock.Base.{
  ℕ, ◌+◌, ◌<◌, ◌≤◌, ◌^◌, ◌≡◌, refl, ◌∙◌, inl, inr, List, [], ◌∷◌, ◌++◌, some, ok, arith,
}
use batt_lock.Base.Texts.{codes}
use batt_lock.Base.Int.{pos, ◌≤ℤ◌}
use batt_lock.Base.Float.{FloatOps, IsIeee}
use batt_lock.Base.Utf8.{encode, encode_char, decode, decode_from, decode_byte}
use batt_lock.Can.Message.{CanMessage, auth_request_id}
use batt_lock.Can.Transport
use batt_lock.Can.Transport.{new_bus}
use batt_lock.Can.Codec.{encode_battery_id, decode_battery_id}
use batt_lock.Can.Status.{BatteryStatus, encode_status}
use batt_lock.Can.Status.RoundTrip.{rounded, decode_status-encode_status, encode_status-id}
use batt_lock.Can.Battery.{new_battery_node, own_status, send_identity, send_status}
use batt_lock.Can.Vehicle
use batt_lock.Can.Vehicle.{
  VehicleNode, new_vehicle, Verdict, identity, valid, replay_attack, injection_attack,
}
use batt_lock.Can.Vehicle.Telemetry.{receive_old}
use batt_lock.Can.Vehicle.Genuine.{own_encoded, own_valid, receive-encode_status}
use batt_lock.Crypto.Counters.{next}
use batt_lock.Attacks.Bus.{capture, replay, block, intercept, release_all}
use batt_lock.Attacks.Telemetry.{tampered}
use batt_lock.Attacks.Detection.{receive-inject_fake_status}
use batt_lock.Can.RunSimulation.Steps.{
  Scene, the_battery, new_scene, bus_send, bus_receive, receive_vehicle, deliver, deliver_all,
  next_status,
}
use batt_lock.Can.RunSimulation.Packed.{modified, injected}
use batt_lock.Can.RunSimulation.{
  tampering, part_1, part_2, part_3, part_4, part_5, part_6, telemetry_parts,
}

module _ {F PublicKey : Type 0} (ops : FloatOps F) where
  -- A scene whose bus is empty, after `n` statuses of the battery.
  abbrev pub at : ℕ → VehicleNode PublicKey → List (Verdict F) → Scene F PublicKey
  at n v verdicts = record {
    bus = new_bus;
    vehicle_node = v;
    battery_node = record (new_battery_node the_battery) { counter = record { counter = n } };
    verdicts = verdicts;
  }

  deliver_verdict :
      (n : ℕ) (v v' : VehicleNode PublicKey) (verdicts : List (Verdict F)) (m : CanMessage)
      (verdict : Verdict F)
      → Vehicle.receive ops m v ≡ (ok verdict, v')
      → deliver ops m (at n v verdicts) ≡ ok (at n v' (verdicts ++ verdict ∷ []))
  unfolding deliver receive_vehicle bus_receive bus_send Transport.send Transport.receive
  deliver_verdict n v v' verdicts m verdict e = rw e

module _ {F PublicKey : Type 0} (ops : FloatOps F) (ieee : IsIeee ops) (key : PublicKey) where
  -- The vehicle with its last counter.
  abbrev vehicle : ℕ → VehicleNode PublicKey
  vehicle c = record (new_vehicle (some key)) { replay = record { last_counter = pos c } }

  record Follows (n : ℕ) (m : CanMessage) : Type 0 where
    made : encode_status ops (own_status ops (n + 1)) ≡ ok m
    sent :
        (c : ℕ) (verdicts : List (Verdict F))
        → next_status ops (at ops n (vehicle c) verdicts)
          ≡ ok (m, at ops (n + 1) (vehicle c) verdicts)

  next_status-Follows : (n : ℕ) → n + 1 < 2 ^ 32 → (m : CanMessage) × Follows n m
  unfolding next_status send_status next
  next_status-Follows n fits =
      let (m, e) = own_encoded ops ieee (n + 1) fits in
      (m, record { made = e; sent = λ c verdicts. rw e refl })

  receive_fresh :
      (c n : ℕ) (m : CanMessage)
      → c < n
      → encode_status ops (own_status ops n) ≡ ok m
      → Vehicle.receive ops m (vehicle c) ≡ (ok (valid (rounded ops (own_status ops n))), vehicle n)
  receive_fresh c n m newer e =
      receive-encode_status ops ieee (own_status ops n) m (vehicle c) e (omega arith)
      ∙ rw (own_valid ops ieee n) refl

  receive_stale :
      (c : ℕ) (s : BatteryStatus F) (m : CanMessage)
      → s.counter ≤ℤ pos c
      → encode_status ops s ≡ ok m
      → Vehicle.receive ops m (vehicle c) ≡ (ok replay_attack, vehicle c)
  receive_stale c s m old e =
      let (d, size) = decode_status-encode_status ops ieee s m e in
      receive_old ops m (vehicle c) (rounded ops s) (encode_status-id ops s m e) size d old

  abbrev shown : ℕ → Verdict F
  shown n = valid (rounded ops (own_status ops n))

  abbrev identity_frame : CanMessage
  identity_frame = record { arbitration_id = auth_request_id; content = codes "BAT001" }

  abbrev named : Verdict F
  named = identity (codes "BAT001")

  receive_identity : Vehicle.receive ops identity_frame (vehicle 0) ≡ (ok named, vehicle 0)
  unfolding Vehicle.receive decode_battery_id decode decode_from decode_byte
  receive_identity = refl

  part_1_runs :
      part_1 ops (at ops 0 (vehicle 0) []) ≡ ok (at ops 1 (vehicle 1) (named ∷ shown 1 ∷ []))
  unfolding part_1 send_identity encode_battery_id encode encode_char
  part_1_runs =
      let (m, next) = next_status-Follows 0 (omega arith) in
      rw
        (
          deliver_verdict ops 0 (vehicle 0) (vehicle 0) [] identity_frame named receive_identity,
          next.sent 0 (named ∷ []),
          deliver_verdict ops 1 (vehicle 0) (vehicle 1) (named ∷ []) m (shown 1)
              (receive_fresh 0 1 m (omega arith) next.made),
        )
        refl

  part_2_runs :
      (c n : ℕ) (verdicts : List (Verdict F))
      → c < n + 1
      → n + 1 < 2 ^ 32
      → part_2 ops (at ops n (vehicle c) verdicts)
        ≡ ok (
            at ops
              (n + 1)
              (vehicle (n + 1))
              ((verdicts ++ shown (n + 1) ∷ []) ++ replay_attack ∷ []))
  unfolding part_2 replay capture
  part_2_runs c n verdicts newer fits =
      let (m, next) = next_status-Follows n fits in
      let fresh = receive_fresh c (n + 1) m newer next.made in
      let stale = receive_stale (n + 1) (own_status ops (n + 1)) m (omega arith) next.made in
      rw
        (
          next.sent c verdicts,
          deliver_verdict ops (n + 1) (vehicle c) (vehicle (n + 1)) verdicts m (shown (n + 1))
              fresh,
          deliver_verdict ops (n + 1) (vehicle (n + 1)) (vehicle (n + 1))
              (verdicts ++ shown (n + 1) ∷ []) m replay_attack stale,
        )
        refl

  part_3_runs :
      (c n : ℕ) (verdicts : List (Verdict F))
      → c < 999
      → part_3 ops (at ops n (vehicle c) verdicts)
        ≡ ok (at ops n (vehicle 999) (verdicts ++ injection_attack ∷ []))
  unfolding part_3
  part_3_runs c n verdicts low =
      let (m, e) = injected ops ieee in
      let received : Vehicle.receive ops m (vehicle c) ≡ (ok injection_attack, vehicle 999) =
        elim (receive-inject_fake_status ops ieee m (vehicle c) e) [
          | inl (_, r) ↦ r
          | inr (high, _) ↦ absurd (omega arith)
        ] in
      rw (e, deliver_verdict ops n (vehicle c) (vehicle 999) verdicts m injection_attack received)
        refl

  part_4_runs :
      (c n : ℕ) (verdicts : List (Verdict F))
      → n + 1 < 2 ^ 32
      → part_4 ops (at ops n (vehicle c) verdicts) ≡ ok (at ops (n + 1) (vehicle c) verdicts)
  unfolding part_4 block
  part_4_runs c n verdicts fits =
      let (m, next) = next_status-Follows n fits in rw (next.sent c verdicts) refl

  part_5_runs :
      (c n : ℕ) (verdicts : List (Verdict F))
      → n + 1 ≤ c
      → n + 1 < 2 ^ 32
      → part_5 ops (at ops n (vehicle c) verdicts)
        ≡ ok (at ops (n + 1) (vehicle c) (verdicts ++ replay_attack ∷ []))
  unfolding part_5
  part_5_runs c n verdicts old fits =
      let (m, next) = next_status-Follows n fits in
      let (m', changed, e) = modified ops ieee (n + 1) m fits next.made in
      rw
        (
          next.sent c verdicts,
          changed,
          deliver_verdict ops (n + 1) (vehicle c) (vehicle c) verdicts m' replay_attack (
              receive_stale c (tampered ops (tampering ops) (rounded ops (own_status ops (n + 1))))
                m' (omega arith) e),
        )
        refl

  part_6_runs :
      (c n : ℕ) (verdicts : List (Verdict F))
      → n + 2 ≤ c
      → n + 2 < 2 ^ 32
      → part_6 ops (at ops n (vehicle c) verdicts)
        ≡ ok (
            at ops (n + 1 + 1) (vehicle c) ((verdicts ++ replay_attack ∷ []) ++ replay_attack ∷ []))
  unfolding part_6 deliver_all release_all intercept
  part_6_runs c n verdicts old fits =
      let (m1, first) = next_status-Follows n (omega arith) in
      let (m2, second) = next_status-Follows (n + 1) (omega arith) in
      let stale1 = receive_stale c (own_status ops (n + 1)) m1 (omega arith) first.made in
      let stale2 = receive_stale c (own_status ops (n + 1 + 1)) m2 (omega arith) second.made in
      rw
        (
          first.sent c verdicts,
          second.sent c verdicts,
          deliver_verdict ops (n + 1 + 1) (vehicle c) (vehicle c) verdicts m2 replay_attack stale2,
          deliver_verdict ops (n + 1 + 1) (vehicle c) (vehicle c) (verdicts ++ replay_attack ∷ [])
              m1 replay_attack stale1,
        )
        refl

  -- In the first six parts of the demonstration the vehicle reports the identity, the two statuses that come
  -- in order as valid, the repeated frame as a replay and the injected one as an injection; after that it
  -- reports every status as a replay: the frame with the changed voltage, and the two that were delayed. The
  -- bus is empty then, and the last counter is the injected 999.
  pub telemetry_parts_runs :
      telemetry_parts ops (new_scene key)
      ≡ ok (
          at ops 6 (vehicle 999) (
            named
            ∷ shown 1
            ∷ shown 2
            ∷ replay_attack
            ∷ injection_attack
            ∷ replay_attack
            ∷ replay_attack
            ∷ replay_attack
            ∷ []))
  unfolding telemetry_parts
  telemetry_parts_runs =
      rw
        (
          part_1_runs,
          part_2_runs 1 1 _ (omega arith) (omega arith),
          part_3_runs 2 2 _ (omega arith),
          part_4_runs 999 2 _ (omega arith),
          part_5_runs 999 3 _ (omega arith) (omega arith),
        )
        (part_6_runs 999 4 _ (omega arith) (omega arith))
