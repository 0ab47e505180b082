-- ===== src/Attacks/Detection.antt =====
-- What the vehicle reports of the telemetry that an attacker injects.
use batt_lock.Base.{Bool-cases, ◌≡◌, ◌≢◌, ◌⊎◌, inl, inr, ◌∙◌, ap, false, ◌==◌, Result, ok, arith}
use batt_lock.Base.Int.{ℤ, pos, and_mask, ◌<ℤ◌, ◌≤ℤ◌, leb_ℤ}
use batt_lock.Base.Float.{FloatOps, IsIeee}
use batt_lock.Can.Message.{CanMessage}
use batt_lock.Can.Status.{BatteryStatus, encode_status}
use batt_lock.Can.Status.RoundTrip.{rounded, decode_status-encode_status, encode_status-id}
use batt_lock.Can.Vehicle.{
  VehicleNode, Verdict, replay_attack, injection_attack, judge, out_of_range, flags_raised,
  fault_mask, fault_flags_raised, receive,
}
use batt_lock.Can.Vehicle.Telemetry.{receive_old}
use batt_lock.Can.Vehicle.Genuine.{receive-encode_status, single_below}
use batt_lock.Attacks.Telemetry.{
  inject_fake_status, fake_status, flagged_status, inject_fault_flag_evasion,
}

module _ {F : Type 0} (ops : FloatOps F) (ieee : IsIeee ops) where
  fake_judged : judge ops (rounded ops (fake_status ops)) ≡ injection_attack
  unfolding judge out_of_range
  fake_judged =
      rw (
        ieee.single_whole 999 (omega arith),
        ieee.literal_whole 999 100 (omega arith) (omega arith),
      )

  flagged_judged :
      (flags counter : ℤ)
      → and_mask flags fault_mask ≢ 0
      → judge ops (rounded ops (flagged_status ops flags counter)) ≡ fault_flags_raised
  unfolding judge out_of_range flags_raised
  flagged_judged flags counter h =
      let raised : (and_mask flags fault_mask == 0) ≡ false = ground arith in
      rw (
        single_below ops ieee 512 1 100 (omega arith) (omega arith),
        single_below ops ieee 124 1 500 (omega arith) (omega arith),
        single_below ops ieee 300 1 150 (omega arith) (omega arith),
        raised,
      )

module _ {F PublicKey : Type 0} (ops : FloatOps F) (ieee : IsIeee ops) where
  -- The frame of the injection attack is reported: as an injection if its counter 999 is above the last
  -- one, and as a replay otherwise.
  pub receive-inject_fake_status :
      (m : CanMessage) (v : VehicleNode PublicKey)
      → inject_fake_status ops ≡ ok m
      → ((v.replay.last_counter <ℤ pos 999)
          × (receive ops m v
              ≡ (ok injection_attack, record v { replay = record { last_counter = pos 999 } })))
        ⊎ ((pos 999 ≤ℤ v.replay.last_counter) × (receive ops m v ≡ (ok replay_attack, v)))
  unfolding inject_fake_status
  receive-inject_fake_status m v e =
      let (d, size) = decode_status-encode_status ops ieee (fake_status ops) m e in
      let id = encode_status-id ops (fake_status ops) m e in
      elim (Bool-cases (leb_ℤ (pos 999) v.replay.last_counter)) [
        | inl old ↦ inr (
          ground arith,
          receive_old ops m v (rounded ops (fake_status ops)) id size d (ground arith),
        )
        | inr new ↦
            let newer : v.replay.last_counter <ℤ pos 999 = ground arith in
            inl (
              newer,
              receive-encode_status ops ieee (fake_status ops) m v e newer
                  ∙ rw (fake_judged ops ieee),
            )
      ]

  -- An injected frame, although it is reported, moves the replay window: a status that the battery sends
  -- after it, with any counter up to the injected one, is reported as a replay.
  pub injection_blocks_battery :
      (m n : CanMessage) (v : VehicleNode PublicKey) (s : BatteryStatus F)
      → inject_fake_status ops ≡ ok m
      → encode_status ops s ≡ ok n
      → s.counter ≤ℤ pos 999
      → (receive ops n (receive ops m v).1).0 ≡ ok replay_attack
  injection_blocks_battery m n v s e f old =
      let (d, size) = decode_status-encode_status ops ieee s n f in
      let id = encode_status-id ops s n f in
      let w = (receive ops m v).1 in
      let moved : pos 999 ≤ℤ w.replay.last_counter = elim (receive-inject_fake_status m v e) [
        | inl (_, r) ↦ rw r (omega arith)
        | inr (old, r) ↦ rw r old
      ] in
      ap (λ (p : Result (Verdict F) × VehicleNode PublicKey). p.0)
        (receive_old ops n w (rounded ops s) id size d (omega arith))

  -- A status with a fault flag raised is reported although its measurements are as usual, if its counter
  -- is fresh.
  pub receive-inject_fault_flag_evasion :
      (flags counter : ℤ) (m : CanMessage) (v : VehicleNode PublicKey)
      → inject_fault_flag_evasion ops flags counter ≡ ok m
      → and_mask flags fault_mask ≢ 0
      → v.replay.last_counter <ℤ counter
      → receive ops m v
        ≡ (ok fault_flags_raised, record v { replay = record { last_counter = counter } })
  unfolding inject_fault_flag_evasion
  receive-inject_fault_flag_evasion flags counter m v e raised newer =
      receive-encode_status ops ieee (flagged_status ops flags counter) m v e newer
      ∙ rw (flagged_judged ops ieee flags counter raised)
