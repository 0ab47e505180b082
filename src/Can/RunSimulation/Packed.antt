-- ===== src/Can/RunSimulation/Packed.antt =====
-- The frames that the attackers make of statuses can always be packed.
use batt_lock.Base.{ℕ, ◌<◌, ◌≤◌, ◌*◌, ◌^◌, ◌≡◌, refl, List, [], ◌∷◌, ok, arith}
use batt_lock.Base.Int.{pos}
use batt_lock.Base.Float.{FloatOps, IsIeee}
use batt_lock.Base.Struct.{struct_pack_total, pack_u32, pack_u8, pack_u32_total, pack_u8_total}
use batt_lock.Can.Message.{CanMessage, battery_status}
use batt_lock.Can.Status.{encode_status}
use batt_lock.Can.Status.RoundTrip.{rounded, decode_status-encode_status}
use batt_lock.Can.Battery.{own_status}
use batt_lock.Attacks.Bus.{new_capture, capture}
use batt_lock.Attacks.Telemetry.{inject_fake_status, modify, tampered}
use batt_lock.Can.RunSimulation.{tampering}

module _ {F : Type 0} (ops : FloatOps F) (ieee : IsIeee ops) where
  Packable : F → Type 0
  Packable x = (b : List ℕ) × (ops.pack x ≡ ok b)

  encoded :
      (n soc soh flags : ℕ) (voltage current temperature : F)
      → n < 2 ^ 32
      → (soc < 256) × (soh < 256) × (flags < 256)
      → Packable voltage
      → Packable current
      → Packable temperature
      → (m : CanMessage) × (encode_status ops (record {
        counter = pos n;
        voltage = voltage;
        current = current;
        temperature = temperature;
        soc = pos soc;
        soh = pos soh;
        fault_flags = pos flags;
      })
          ≡ ok m)
  unfolding encode_status Packable
  encoded n soc soh flags voltage current temperature fits (a, h, f) v c t =
      let (payload, p) =
        struct_pack_total
          (pack_u32 (pos n)
            ∷ ops.pack voltage
            ∷ ops.pack current
            ∷ ops.pack temperature
            ∷ pack_u8 (pos soc)
            ∷ pack_u8 (pos soh)
            ∷ pack_u8 (pos flags)
            ∷ [])
          (
            pack_u32_total n fits,
            (
              v,
              (c, (t, (pack_u8_total soc a, (pack_u8_total soh h, (pack_u8_total flags f, tt))))),
            ),
          ) in
      (record { arbitration_id = battery_status; content = payload }, rw p refl)

  single_Packable : (x : F) → Packable x → Packable (ops.single x)
  unfolding Packable
  single_Packable x (b, e) = (b, ieee.pack_single x b e)

  literal_Packable : (m k : ℕ) → m ≤ 2 ^ 24 * 10 ^ k → Packable (ops.literal m k)
  unfolding Packable
  literal_Packable m k h = ieee.pack_literal m k h

  -- The frame that the attacker in the middle makes of a status.
  pub modified :
      (n : ℕ) (m : CanMessage)
      → n < 2 ^ 32
      → encode_status ops (own_status ops n) ≡ ok m
      → (m' : CanMessage) × (modify ops (tampering ops) (capture m new_capture) ≡ ok m')
        × (encode_status ops (tampered ops (tampering ops) (rounded ops (own_status ops n)))
            ≡ ok m')
  unfolding modify capture
  modified n m fits e =
      let (d, size) = decode_status-encode_status ops ieee (own_status ops n) m e in
      let (m', p) =
        encoded n 85 98 0 (ops.literal 85 0) (ops.single (ops.literal 124 1))
          (ops.single (ops.literal 300 1)) fits (omega arith, omega arith, omega arith)
          (literal_Packable 85 0 (omega arith))
          (single_Packable _ (literal_Packable 124 1 (omega arith)))
          (single_Packable _ (literal_Packable 300 1 (omega arith))) in
      (m', rw (d, p) refl, p)

  pub injected : (m : CanMessage) × (inject_fake_status ops ≡ ok m)
  unfolding inject_fake_status
  injected =
      let p = literal_Packable 999 0 (omega arith) in
      encoded 999 100 100 0 (ops.literal 999 0) (ops.literal 999 0) (ops.literal 999 0)
        (omega arith) (omega arith, omega arith, omega arith) p p p
