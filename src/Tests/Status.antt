-- ===== src/Tests/Status.antt =====
-- The status frames and the collector at one status.
use batt_lock.Base.{ℕ, ◌≡◌, refl, [], ◌∷◌, ◌++◌, All, length, none, some, ok, arith}
use batt_lock.Base.Int.{pos}
use batt_lock.Base.Struct.{struct_pack, pack_u32, pack_u8, unpack_u32, unpack_u8}
use batt_lock.Can.Message.{
  CanMessage, battery_status, battery_status_a, battery_status_b, battery_status_c, nonce_id,
}
use batt_lock.Can.Status.{
  BatteryStatus, encode_status, encode_status_a, encode_status_b, encode_status_c, decode_status,
  decode_status_a, decode_status_b, decode_status_c, status_from_frames,
}
use batt_lock.Can.Status.RoundTrip.{rounded, decode_status-encode_status}
use batt_lock.Can.Collector.{StatusCollector, new_collector, feed, feed_all}
use batt_lock.Can.Collector.Rounds.{IsValid, IsOther}
use batt_lock.Can.Collector.Emission.{Emitted, feed_emits, nones}
use batt_lock.Can.Collector.FullRound.{full_round}
use batt_lock.Tests.Floats.{decimals, decimals-IsIeee}

-- 51.2 V, 12 A, 35.5 degrees.
abbrev pub sample : BatteryStatus (ℕ × ℕ)
sample = record {
  counter = pos 300;
  voltage = (512, 1);
  current = (12, 0);
  temperature = (355, 1);
  soc = pos 80;
  soh = pos 95;
  fault_flags = pos 0;
}

abbrev pub whole : CanMessage
whole = record {
  arbitration_id = battery_status;
  content = 44 ∷ 1 ∷ 0 ∷ 0 ∷ 51 ∷ 0 ∷ 0 ∷ 0 ∷ 12 ∷ 0 ∷ 0 ∷ 0 ∷ 35 ∷ 0 ∷ 0 ∷ 0 ∷ 80 ∷ 95 ∷ 0 ∷ [];
}

abbrev pub frame_a : CanMessage
frame_a = record {
  arbitration_id = battery_status_a;
  content = 44 ∷ 1 ∷ 0 ∷ 0 ∷ 80 ∷ 95 ∷ 0 ∷ 0 ∷ [];
}

abbrev frame_b : CanMessage
frame_b = record {
  arbitration_id = battery_status_b;
  content = 51 ∷ 0 ∷ 0 ∷ 0 ∷ 12 ∷ 0 ∷ 0 ∷ 0 ∷ [];
}

abbrev frame_c : CanMessage
frame_c = record {
  arbitration_id = battery_status_c;
  content = 35 ∷ 0 ∷ 0 ∷ 0 ∷ 0 ∷ 0 ∷ 0 ∷ 0 ∷ [];
}

abbrev pub nonce_frame : CanMessage
nonce_frame = record { arbitration_id = nonce_id; content = 1 ∷ [] }

pub encodes : encode_status decimals sample ≡ ok whole
unfolding encode_status struct_pack pack_u32 pack_u8
encodes = refl

encodes_a : encode_status_a decimals sample ≡ ok frame_a
unfolding encode_status_a struct_pack pack_u32 pack_u8
encodes_a = refl

encodes_b : encode_status_b decimals sample ≡ ok frame_b
unfolding encode_status_b struct_pack
encodes_b = refl

encodes_c : encode_status_c decimals sample ≡ ok frame_c
unfolding encode_status_c struct_pack
encodes_c = refl

decode_status-encode_status_example :
    (decode_status decimals whole ≡ ok (rounded decimals sample)) × (length whole.content ≡ 19)
decode_status-encode_status_example =
    decode_status-encode_status decimals decimals-IsIeee sample whole encodes

abbrev waiting : StatusCollector
waiting = record { a = some frame_a; b = some frame_b; c = none }

waiting-IsValid : IsValid waiting
waiting-IsValid = record { slot_a = refl; slot_b = refl; slot_c = tt; closed = λ n. cc }

emits : feed decimals frame_c waiting ≡ (ok (some (rounded decimals sample)), new_collector)
unfolding feed status_from_frames decode_status_a decode_status_b decode_status_c unpack_u32
    unpack_u8
emits = refl

feed_emits_example : Emitted decimals frame_c waiting new_collector (rounded decimals sample)
feed_emits_example =
    feed_emits decimals frame_c waiting new_collector (rounded decimals sample) waiting-IsValid
      emits

other : All IsOther (nonce_frame ∷ [])
other = ((ground arith, ground arith, ground arith), tt)

full_round_example :
    (feed_all decimals (frame_a ∷ (nonce_frame ∷ []) ++ (frame_b ∷ ([] ++ (frame_c ∷ [])))) waiting
      ≡ (
        ok none
            ∷ (nones decimals (nonce_frame ∷ [])
                ++ (ok none ∷ ([] ++ (ok (some (rounded decimals sample)) ∷ [])))),
        new_collector,
      ))
    × (feed_all decimals
          (frame_a ∷ (nonce_frame ∷ []) ++ (frame_c ∷ ([] ++ (frame_b ∷ []))))
          waiting
        ≡ (
          ok none
              ∷ (nones decimals (nonce_frame ∷ [])
                  ++ (ok none ∷ ([] ++ (ok (some (rounded decimals sample)) ∷ [])))),
          new_collector,
        ))
full_round_example =
    full_round decimals decimals-IsIeee sample frame_a frame_b frame_c (nonce_frame ∷ []) [] waiting
      encodes_a encodes_b encodes_c other tt
