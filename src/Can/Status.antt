-- ===== src/Can/Status.antt =====
-- `can/status_message.py`, and the status frames of `can/encoder.py` and `can/decoder.py`: the old
-- single frame of 19 bytes, and the three frames A, B and C of 8 bytes.
pub mod RoundTrip
use batt_lock.Base.{
  ℕ, ◌==◌, not, List, [], ◌∷◌, ◌++◌, length, take, slice, replicate, Result, ok, err, raise_if,
  ◌>>=◌, ◌>>◌, struct_error, ltb,
}
use batt_lock.Base.Int.{ℤ, pos}
use batt_lock.Base.Float.{FloatOps}
use batt_lock.Base.Struct.{struct_pack, pack_u32, pack_u8, unpack_u32, unpack_u8}
use batt_lock.Can.Message.{
  Bytes, CanMessage, battery_status, battery_status_a, battery_status_b, battery_status_c,
}

-- `BatteryStatus`; ints are any ints until a frame is packed.
pub record BatteryStatus (F : Type 0) : Type 0 where
  pub counter : ℤ
  pub voltage : F
  pub current : F
  pub temperature : F
  pub soc : ℤ
  pub soh : ℤ
  pub fault_flags : ℤ

-- What `decode_status_a` and `decode_status_b` return, as dicts in the source.
pub record StatusA : Type 0 where
  pub counter : ℤ
  pub soc : ℤ
  pub soh : ℤ
  pub fault_flags : ℤ

pub record StatusB (F : Type 0) : Type 0 where
  pub voltage : F
  pub current : F

module _ {F : Type 0} (ops : FloatOps F) where
  -- Format IfffBBB. It is native: little-endian on the program's machines, with no padding.
  unfoldable pub encode_status : BatteryStatus F → Result CanMessage
  encode_status status = do
    payload ← struct_pack (
        pack_u32 status.counter
        ∷ ops.pack status.voltage
        ∷ ops.pack status.current
        ∷ ops.pack status.temperature
        ∷ pack_u8 status.soc
        ∷ pack_u8 status.soh
        ∷ pack_u8 status.fault_flags
        ∷ [])
    ok (record { arbitration_id = battery_status; content = payload })

  -- Format <IBBBB.
  unfoldable pub encode_status_a : BatteryStatus F → Result CanMessage
  encode_status_a status = do
    payload ← struct_pack (
        pack_u32 status.counter
        ∷ pack_u8 status.soc
        ∷ pack_u8 status.soh
        ∷ pack_u8 status.fault_flags
        ∷ pack_u8 (pos 0)
        ∷ [])
    ok (record { arbitration_id = battery_status_a; content = payload })

  -- Format <ff.
  unfoldable pub encode_status_b : BatteryStatus F → Result CanMessage
  encode_status_b status = do
    payload ← struct_pack (ops.pack status.voltage ∷ ops.pack status.current ∷ [])
    ok (record { arbitration_id = battery_status_b; content = payload })

  -- Format <f4x: four bytes of zero behind the temperature.
  unfoldable pub encode_status_c : BatteryStatus F → Result CanMessage
  encode_status_c status = do
    payload ← struct_pack (ops.pack status.temperature ∷ ok (replicate 4 0) ∷ [])
    ok (record { arbitration_id = battery_status_c; content = payload })

  -- The fields of 19 bytes.
  abbrev pub status_of_bytes : Bytes → BatteryStatus F
  status_of_bytes b = record {
    counter = unpack_u32 (slice 0 4 b);
    voltage = ops.unpack (slice 4 8 b);
    current = ops.unpack (slice 8 12 b);
    temperature = ops.unpack (slice 12 16 b);
    soc = unpack_u8 (slice 16 17 b);
    soh = unpack_u8 (slice 17 18 b);
    fault_flags = unpack_u8 (slice 18 19 b);
  }

  unfoldable pub decode_status : CanMessage → Result (BatteryStatus F)
  decode_status message = do
    raise_if (not (length message.content == 19)) struct_error
    ok (status_of_bytes message.content)

  unfoldable pub decode_status_b : CanMessage → Result (StatusB F)
  decode_status_b message = do
    let b = message.content
    raise_if (not (length b == 8)) struct_error
    ok (record { voltage = ops.unpack (slice 0 4 b); current = ops.unpack (slice 4 8 b) })

  -- `struct.unpack("<f", message.data[:4])[0]`
  unfoldable pub decode_status_c : CanMessage → Result F
  decode_status_c message = do
    let b = take 4 message.content
    raise_if (not (length b == 4)) struct_error
    ok (ops.unpack b)

unfoldable pub decode_status_a : CanMessage → Result StatusA
decode_status_a message = do
  let b = message.content
  raise_if (not (length b == 8)) struct_error
  ok (record {
    counter = unpack_u32 (slice 0 4 b);
    soc = unpack_u8 (slice 4 5 b);
    soh = unpack_u8 (slice 5 6 b);
    fault_flags = unpack_u8 (slice 6 7 b);
  })

module _ {F : Type 0} (ops : FloatOps F) where
  unfoldable pub status_from_frames :
      CanMessage → CanMessage → CanMessage → Result (BatteryStatus F)
  status_from_frames status_a status_b status_c = do
    a ← decode_status_a status_a
    b ← decode_status_b ops status_b
    c ← decode_status_c ops status_c
    ok (record {
      counter = a.counter;
      voltage = b.voltage;
      current = b.current;
      temperature = c;
      soc = a.soc;
      soh = a.soh;
      fault_flags = a.fault_flags;
    })
