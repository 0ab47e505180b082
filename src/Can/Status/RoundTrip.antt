-- ===== src/Can/Status/RoundTrip.antt =====
-- A status that was packed is read back, rounded to single precision; the three frames and the old
-- one carry the same.
use batt_lock.Base.{
  ℕ, ◌≡◌, refl, ◌∙◌, [], ◌∷◌, ◌++◌, length, replicate, get_or, ok, >>=-eq-ok, arith,
}
use batt_lock.Base.Int.{pos}
use batt_lock.Base.Float.{FloatOps, IsIeee}
use batt_lock.Base.Struct.{
  struct_pack, Packs, struct_pack-Packs, pack_u32, pack_u8, unpack_u32, unpack_u8,
  unpack_u32-pack_u32, unpack_u8-pack_u8,
}
use batt_lock.Can.Message.{
  Bytes, CanMessage, battery_status, battery_status_a, battery_status_b, battery_status_c,
}
use batt_lock.Can.Status.{
  BatteryStatus, encode_status, encode_status_a, encode_status_b, encode_status_c, decode_status,
  decode_status_a, decode_status_b, decode_status_c, status_from_frames,
}

four_bytes :
    (b : Bytes) → length b ≡ 4 → b ≡ get_or b 0 0 ∷ get_or b 1 0 ∷ get_or b 2 0 ∷ get_or b 3 0 ∷ []
four_bytes [] h = absurd (omega arith)
four_bytes (x ∷ []) h = absurd (omega arith)
four_bytes (x ∷ y ∷ []) h = absurd (omega arith)
four_bytes (x ∷ y ∷ z ∷ []) h = absurd (omega arith)
four_bytes (x ∷ y ∷ z ∷ w ∷ []) h = refl
four_bytes (x ∷ y ∷ z ∷ w ∷ v ∷ b) h = absurd (omega arith)

one_byte : (b : Bytes) → length b ≡ 1 → b ≡ get_or b 0 0 ∷ []
one_byte [] h = absurd (omega arith)
one_byte (x ∷ []) h = refl
one_byte (x ∷ y ∷ b) h = absurd (omega arith)

module _ {F : Type 0} (ops : FloatOps F) where
  -- A status as a receiver can see it: its measurements in single precision.
  abbrev pub rounded : BatteryStatus F → BatteryStatus F
  rounded s = record s {
    voltage = ops.single s.voltage;
    current = ops.single s.current;
    temperature = ops.single s.temperature;
  }

  decode_status_fields :
      (id : ℕ) (c v i t a h f : Bytes)
      → length c ≡ 4
      → length v ≡ 4
      → length i ≡ 4
      → length t ≡ 4
      → length a ≡ 1
      → length h ≡ 1
      → length f ≡ 1
      → decode_status ops (record {
        arbitration_id = id;
        content = c ++ (v ++ (i ++ (t ++ (a ++ (h ++ (f ++ []))))));
      })
        ≡ ok (record {
          counter = unpack_u32 c;
          voltage = ops.unpack v;
          current = ops.unpack i;
          temperature = ops.unpack t;
          soc = unpack_u8 a;
          soh = unpack_u8 h;
          fault_flags = unpack_u8 f;
        })
  unfolding decode_status
  decode_status_fields id c v i t a h f hc hv hi ht ha hh hf =
      rw
        (
          four_bytes c hc,
          four_bytes v hv,
          four_bytes i hi,
          four_bytes t ht,
          one_byte a ha,
          one_byte h hh,
          one_byte f hf,
        )
        refl

  length_fields :
      (c v i t a h f : Bytes)
      → length c ≡ 4
      → length v ≡ 4
      → length i ≡ 4
      → length t ≡ 4
      → length a ≡ 1
      → length h ≡ 1
      → length f ≡ 1
      → length (c ++ (v ++ (i ++ (t ++ (a ++ (h ++ (f ++ []))))))) ≡ 19
  length_fields c v i t a h f hc hv hi ht ha hh hf =
      rw
        (
          four_bytes c hc,
          four_bytes v hv,
          four_bytes i hi,
          four_bytes t ht,
          one_byte a ha,
          one_byte h hh,
          one_byte f hf,
        )
        refl

  module _ (ieee : IsIeee ops) where
    single_frame :
        (s : BatteryStatus F) (id : ℕ) (b : Bytes)
        → Packs
            (pack_u32 s.counter
              ∷ ops.pack s.voltage
              ∷ ops.pack s.current
              ∷ ops.pack s.temperature
              ∷ pack_u8 s.soc
              ∷ pack_u8 s.soh
              ∷ pack_u8 s.fault_flags
              ∷ [])
            b
        → (decode_status ops (record { arbitration_id = id; content = b }) ≡ ok (rounded s))
          × (length b ≡ 19)
    single_frame s id b
          (
            c,
            b₁,
            ec,
            (
              v,
              b₂,
              ev,
              (
                i,
                b₃,
                ei,
                (t, b₄, et, (a, b₅, ea, (h, b₆, eh, (f, b₇, ef, last, e₇), e₆), e₅), e₄),
                e₃,
              ),
              e₂,
            ),
            e₁,
          ) =
        let (xc, lc) = unpack_u32-pack_u32 s.counter c ec in
        let (xa, la) = unpack_u8-pack_u8 s.soc a ea in
        let (xh, lh) = unpack_u8-pack_u8 s.soh h eh in
        let (xf, lf) = unpack_u8-pack_u8 s.fault_flags f ef in
        let lv = ieee.pack_length s.voltage v ev in
        let li = ieee.pack_length s.current i ei in
        let lt = ieee.pack_length s.temperature t et in
        rw (e₁, e₂, e₃, e₄, e₅, e₆, e₇, last)
          (
            decode_status_fields id c v i t a h f lc lv li lt la lh lf
                ∙ rw
                    (
                      xc,
                      xa,
                      xh,
                      xf,
                      ieee.unpack-pack s.voltage v ev,
                      ieee.unpack-pack s.current i ei,
                      ieee.unpack-pack s.temperature t et,
                    )
                    refl,
            length_fields c v i t a h f lc lv li lt la lh lf,
          )

    -- `decode_status` reads from the single frame what `encode_status` wrote, with the
    -- measurements rounded to single precision; the frame has 19 bytes.
    pub decode_status-encode_status :
        (s : BatteryStatus F) (m : CanMessage)
        → encode_status ops s ≡ ok m
        → (decode_status ops m ≡ ok (rounded s)) × (length m.content ≡ 19)
    unfolding encode_status
    decode_status-encode_status s m e =
        let (b, e₀, r) = >>=-eq-ok (struct_pack _) _ e in
        let whole : m ≡ record { arbitration_id = battery_status; content = b } = cc r in
        rw whole (single_frame s battery_status b (struct_pack-Packs _ b e₀))

    frame_a :
        (s : BatteryStatus F) (id : ℕ) (b : Bytes)
        → Packs
            (pack_u32 s.counter
              ∷ pack_u8 s.soc
              ∷ pack_u8 s.soh
              ∷ pack_u8 s.fault_flags
              ∷ pack_u8 (pos 0)
              ∷ [])
            b
        → (decode_status_a (record { arbitration_id = id; content = b })
            ≡ ok (record {
              counter = s.counter;
              soc = s.soc;
              soh = s.soh;
              fault_flags = s.fault_flags;
            }))
          × (length b ≡ 8)
    unfolding decode_status_a
    frame_a s id b
          (
            c,
            b₁,
            ec,
            (a, b₂, ea, (h, b₃, eh, (f, b₄, ef, (z, b₅, ez, last, e₅), e₄), e₃), e₂),
            e₁,
          ) =
        let (xc, lc) = unpack_u32-pack_u32 s.counter c ec in
        let (xa, la) = unpack_u8-pack_u8 s.soc a ea in
        let (xh, lh) = unpack_u8-pack_u8 s.soh h eh in
        let (xf, lf) = unpack_u8-pack_u8 s.fault_flags f ef in
        let (xz, lz) = unpack_u8-pack_u8 (pos 0) z ez in
        rw (e₁, e₂, e₃, e₄, e₅, last, ← xc, ← xa, ← xh, ← xf)
          (rw (four_bytes c lc, one_byte a la, one_byte h lh, one_byte f lf, one_byte z lz)
            (refl, refl))

    frame_b :
        (s : BatteryStatus F) (id : ℕ) (b : Bytes)
        → Packs (ops.pack s.voltage ∷ ops.pack s.current ∷ []) b
        → (decode_status_b ops (record { arbitration_id = id; content = b })
            ≡ ok (record { voltage = ops.single s.voltage; current = ops.single s.current }))
          × (length b ≡ 8)
    unfolding decode_status_b
    frame_b s id b (v, b₁, ev, (i, b₂, ei, last, e₂), e₁) =
        rw (e₁, e₂, last, ← ieee.unpack-pack s.voltage v ev, ← ieee.unpack-pack s.current i ei)
          (rw
            (
              four_bytes v (ieee.pack_length s.voltage v ev),
              four_bytes i (ieee.pack_length s.current i ei),
            )
            (refl, refl))

    frame_c :
        (s : BatteryStatus F) (id : ℕ) (b : Bytes)
        → Packs (ops.pack s.temperature ∷ ok (replicate 4 0) ∷ []) b
        → (decode_status_c ops (record { arbitration_id = id; content = b })
            ≡ ok (ops.single s.temperature))
          × (length b ≡ 8)
    unfolding decode_status_c
    frame_c s id b (t, b₁, et, (z, b₂, ez, last, e₂), e₁) =
        let zeros : z ≡ replicate 4 0 = cc ez in
        rw (e₁, e₂, last, zeros, ← ieee.unpack-pack s.temperature t et)
          (rw (four_bytes t (ieee.pack_length s.temperature t et)) (refl, refl))

    -- The three frames of a status have 8 bytes each and give back, put together, what the single
    -- frame gives: the status with its measurements rounded to single precision.
    pub status_from_frames-encode :
        (s : BatteryStatus F) (a b c : CanMessage)
        → encode_status_a ops s ≡ ok a
        → encode_status_b ops s ≡ ok b
        → encode_status_c ops s ≡ ok c
        → (status_from_frames ops a b c ≡ ok (rounded s))
          × (length a.content ≡ 8)
          × (length b.content ≡ 8)
          × (length c.content ≡ 8)
    unfolding encode_status_a encode_status_b encode_status_c status_from_frames
    status_from_frames-encode s a b c ea eb ec =
        let (pa, fa, ra) = >>=-eq-ok (struct_pack _) _ ea in
        let (pb, fb, rb) = >>=-eq-ok (struct_pack _) _ eb in
        let (pc, fc, rc) = >>=-eq-ok (struct_pack _) _ ec in
        let wa : a ≡ record { arbitration_id = battery_status_a; content = pa } = cc ra in
        let wb : b ≡ record { arbitration_id = battery_status_b; content = pb } = cc rb in
        let wc : c ≡ record { arbitration_id = battery_status_c; content = pc } = cc rc in
        let (da, la) = frame_a s battery_status_a pa (struct_pack-Packs _ pa fa) in
        let (db, lb) = frame_b s battery_status_b pb (struct_pack-Packs _ pb fb) in
        let (dc, lc) = frame_c s battery_status_c pc (struct_pack-Packs _ pc fc) in
        rw (wa, wb, wc) (rw (da, db, dc) (refl, la, lb, lc))

  -- The frames carry their own identifiers.
  pub encode_status-id :
      (s : BatteryStatus F) (m : CanMessage)
      → encode_status ops s ≡ ok m
      → m.arbitration_id ≡ battery_status
  unfolding encode_status
  encode_status-id s m e = let (b, _, r) = >>=-eq-ok (struct_pack _) _ e in cc r

  pub encode_status_a-id :
      (s : BatteryStatus F) (m : CanMessage)
      → encode_status_a ops s ≡ ok m
      → m.arbitration_id ≡ battery_status_a
  unfolding encode_status_a
  encode_status_a-id s m e = let (b, _, r) = >>=-eq-ok (struct_pack _) _ e in cc r

  pub encode_status_b-id :
      (s : BatteryStatus F) (m : CanMessage)
      → encode_status_b ops s ≡ ok m
      → m.arbitration_id ≡ battery_status_b
  unfolding encode_status_b
  encode_status_b-id s m e = let (b, _, r) = >>=-eq-ok (struct_pack _) _ e in cc r

  pub encode_status_c-id :
      (s : BatteryStatus F) (m : CanMessage)
      → encode_status_c ops s ≡ ok m
      → m.arbitration_id ≡ battery_status_c
  unfolding encode_status_c
  encode_status_c-id s m e = let (b, _, r) = >>=-eq-ok (struct_pack _) _ e in cc r
