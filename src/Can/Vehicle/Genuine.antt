-- ===== src/Can/Vehicle/Genuine.antt =====
-- The vehicle accepts what the battery sends.
use batt_lock.Base.{
  ℕ, zero, suc, ◌+◌, ◌*◌, ◌^◌, ◌<◌, ◌≤◌, ◌≡◌, refl, ap, ◌∙◌, false, List, [], ◌∷◌, Result, ok, err,
  arith,
}
use batt_lock.Base.Int.{pos, ◌<ℤ◌, ◌≤ℤ◌}
use batt_lock.Base.Float.{FloatOps, IsIeee}
use batt_lock.Base.Struct.{struct_pack_total, pack_u32, pack_u8, pack_u32_total, pack_u8_total}
use batt_lock.Can.Message.{CanMessage, battery_status}
use batt_lock.Can.Status.{BatteryStatus, encode_status}
use batt_lock.Can.Status.RoundTrip.{rounded, decode_status-encode_status, encode_status-id}
use batt_lock.Crypto.Counters.{next}
use batt_lock.Can.Battery.{BatteryNode, own_status, send_status}
use batt_lock.Can.Vehicle.{
  VehicleNode, Verdict, valid, judge, out_of_range, flags_raised, suspicious, handle_status,
  receive,
}
use batt_lock.Can.Vehicle.Telemetry.{Handled, stale, fresh, handle_status-Handled, receive_status}

module _ {F : Type 0} (ops : FloatOps F) (ieee : IsIeee ops) where
  pub single_below :
      (m j n : ℕ)
      → m * 10 ^ 0 ≤ n * 10 ^ j
      → n ≤ 2 ^ 24
      → ops.gt (ops.single (ops.literal m j)) (ops.literal n 0) ≡ false
  single_below m j n h small =
      rw (ieee.single_whole n small) at
        (ieee.single_mono (ops.literal m j) (ops.literal n 0) (ieee.literal_mono m j n 0 h))

  pub own_valid :
      (n : ℕ) → judge ops (rounded ops (own_status ops n)) ≡ valid (rounded ops (own_status ops n))
  unfolding judge out_of_range flags_raised suspicious
  own_valid n = rw (
    single_below 512 1 100 (omega arith) (omega arith),
    single_below 124 1 500 (omega arith) (omega arith),
    single_below 300 1 150 (omega arith) (omega arith),
    single_below 512 1 95 (omega arith) (omega arith),
    single_below 124 1 450 (omega arith) (omega arith),
    single_below 300 1 140 (omega arith) (omega arith),
  )

  pub own_encoded :
      (n : ℕ) → n < 2 ^ 32 → (m : CanMessage) × (encode_status ops (own_status ops n) ≡ ok m)
  unfolding encode_status
  own_encoded n h =
      let (payload, e) =
        struct_pack_total
          (pack_u32 (pos n)
            ∷ ops.pack (ops.literal 512 1)
            ∷ ops.pack (ops.literal 124 1)
            ∷ ops.pack (ops.literal 300 1)
            ∷ pack_u8 (pos 85)
            ∷ pack_u8 (pos 98)
            ∷ pack_u8 (pos 0)
            ∷ [])
          (
            pack_u32_total n h,
            (
              ieee.pack_literal 512 1 (omega arith),
              (
                ieee.pack_literal 124 1 (omega arith),
                (
                  ieee.pack_literal 300 1 (omega arith),
                  (
                    pack_u8_total 85 (omega arith),
                    (pack_u8_total 98 (omega arith), (pack_u8_total 0 (omega arith), tt)),
                  ),
                ),
              ),
            ),
          ) in
      (record { arbitration_id = battery_status; content = payload }, rw e)

  module _ {PublicKey : Type 0} where
    -- A status that was encoded is judged as it was before, with its measurements rounded, if its
    -- counter is above the last one.
    pub receive-encode_status :
        (s : BatteryStatus F) (m : CanMessage) (v : VehicleNode PublicKey)
        → encode_status ops s ≡ ok m
        → v.replay.last_counter <ℤ s.counter
        → receive ops m v ≡ (
          ok (judge ops (rounded ops s)),
          record v { replay = record { last_counter = s.counter } },
        )
    receive-encode_status s m v e newer =
        let (d, size) = decode_status-encode_status ops ieee s m e in
        receive_status ops m v (encode_status-id ops s m e)
        ∙ go (handle_status-Handled ops m v (rounded ops s) size d)
      where
        go :
            Handled ops m v (rounded ops s)
            → Path
                (Result (Verdict F) × VehicleNode PublicKey)
                (ok (handle_status ops m v).0, (handle_status ops m v).1)
                (
                  ok (judge ops (rounded ops s)),
                  record v { replay = record { last_counter = s.counter } },
                )
        go (stale old _) = absurd (omega arith)
        go (fresh _ h) = rw h

  -- The verdicts on `k` statuses after the counter `n`.
  abbrev pub all_valid : ℕ → ℕ → List (Result (Verdict F))
  all_valid zero n = []
  all_valid (suc k) n = ok (valid (rounded ops (own_status ops (n + 1)))) ∷ all_valid k (n + 1)

  module _ {B PublicKey : Type 0} where
    -- `k` statuses in a row from the battery to the vehicle, and the verdicts.
    unfoldable pub drive :
        ℕ
        → BatteryNode B
        → VehicleNode PublicKey
        → List (Result (Verdict F)) × VehicleNode PublicKey
    drive zero node v = ([], v)
    drive (suc k) node v =
        let (sent, node') = send_status ops node in
        let received : Result (Verdict F) × VehicleNode PublicKey = elim sent [
          | ok message ↦ receive ops message v
          | err e ↦ (err e, v)
        ] in
        let (verdict, v') = received in
        let (verdicts, v'') = drive k node' v' in (verdict ∷ verdicts, v'')

    -- The statuses that a battery sends are all reported as valid, if the vehicle has not seen a counter
    -- above the battery's, for as long as the counter fits its four bytes.
    pub drive_valid :
        (k : ℕ) (node : BatteryNode B) (v : VehicleNode PublicKey)
        → v.replay.last_counter ≤ℤ pos node.counter.counter
        → node.counter.counter + k < 2 ^ 32
        → (drive k node v).0 ≡ all_valid k node.counter.counter
    unfolding drive send_status next
    drive_valid zero node v h fits = refl
    drive_valid (suc k) node v h fits =
        let n = node.counter.counter in
        let (m, e) = own_encoded (n + 1) (omega arith) in
        let received =
          receive-encode_status (own_status ops (n + 1)) m v e (omega arith)
          ∙ rw (own_valid (n + 1)) in
        let w = record v { replay = record { last_counter = pos (n + 1) } } in
        let later : (drive k (record node { counter = record { counter = n + 1 } }) w).0
            ≡ all_valid k (n + 1) =
          drive_valid k (record node { counter = record { counter = n + 1 } }) w (omega arith)
            (omega arith) in
        rw (e, received) (ap (◌∷◌ (ok (valid (rounded ops (own_status ops (n + 1)))))) later)
