-- ===== src/Can/Vehicle/Plausible.antt =====
-- Which status frames the vehicle reports as valid.
use batt_lock.Base.{
  ◌==◌, ◌≡◌, ◌↔◌, ◌||◌, refl, ap, inl, inr, Bool, Bool-cases, true, false, List, length, Result, ok,
  arith,
}
use batt_lock.Base.Int.{ℤ, ◌<ℤ◌, and_mask}
use batt_lock.Base.Float.{FloatOps}
use batt_lock.Can.Message.{CanMessage, battery_status}
use batt_lock.Can.Status.{BatteryStatus, decode_status}
use batt_lock.Can.Vehicle.{
  VehicleNode, Verdict, valid, out_of_range, flags_raised, suspicious, judge, handle_status,
  receive,
}
use batt_lock.Can.Vehicle.Telemetry.{
  Handled, stale, fresh, handle_status-Handled, handle_status_malformed, decode_status_total,
  receive_status, after_all,
}
use batt_lock.Can.Vehicle.History.{highest, seen, after_all-highest}

neither : (a b c : Bool) → (a || b || c) ≡ false → (a ≡ false) × (b ≡ false) × (c ≡ false)
neither true b c h = cc
neither false true c h = cc
neither false false c h = (refl, refl, h)

module _ {F : Type 0} (ops : FloatOps F) where
  -- A status whose counter is above `before` and that no check objects to: first the limits, then the
  -- warnings; the bits are those of the six faults.
  pub record IsPlausible (before : ℤ) (s : BatteryStatus F) : Type 0 where
    pub newer : before <ℤ s.counter
    pub voltage : ops.gt s.voltage (ops.literal 100 0) ≡ false
    pub current : ops.gt s.current (ops.literal 500 0) ≡ false
    pub temperature : ops.gt s.temperature (ops.literal 150 0) ≡ false
    pub no_fault : and_mask s.fault_flags 63 ≡ 0
    pub voltage_warn : ops.gt s.voltage (ops.literal 95 0) ≡ false
    pub current_warn : ops.gt s.current (ops.literal 450 0) ≡ false
    pub temperature_warn : ops.gt s.temperature (ops.literal 140 0) ≡ false

  judge_valid :
      (before : ℤ) (s t : BatteryStatus F)
      → before <ℤ s.counter
      → judge ops s ≡ valid t
      → (s ≡ t) × IsPlausible before s
  unfolding judge out_of_range flags_raised suspicious
  judge_valid before s t newer h = elim (Bool-cases (out_of_range ops s)) [
    | inl a ↦ cc (rw a at h)
    | inr a ↦ elim (Bool-cases (flags_raised ops s)) [
      | inl b ↦ cc (rw (a, b) at h)
      | inr b ↦ elim (Bool-cases (suspicious ops s)) [
        | inl c ↦ cc (rw (a, b, c) at h)
        | inr c ↦
            let (v, i, k) = neither _ _ _ a in
            let (v', i', k') = neither _ _ _ c in
            (
              cc (rw (a, b, c) at h),
              record {
                newer = newer;
                voltage = v;
                current = i;
                temperature = k;
                no_fault = ground arith;
                voltage_warn = v';
                current_warn = i';
                temperature_warn = k';
              },
            )
      ]
    ]
  ]

  judge-IsPlausible :
      (before : ℤ) (s : BatteryStatus F) → IsPlausible before s → judge ops s ≡ valid s
  unfolding judge out_of_range flags_raised suspicious
  judge-IsPlausible before s p =
      rw
        (
          p.voltage, p.current, p.temperature, p.no_fault, p.voltage_warn, p.current_warn,
          p.temperature_warn,
        )
        refl

module _ {F PublicKey : Type 0} (ops : FloatOps F) where
  -- After any frames, of any kind and from anyone, a status frame is reported as valid, with the status `s`,
  -- exactly if it has 19 bytes and decodes to `s`, the counter of `s` is above the counter at the start and
  -- those of all status frames of 19 bytes since, the voltage is not above 100 nor above 95, the current not
  -- above 500 nor above 450, the temperature not above 150 nor above 140, and none of the six lowest bits of
  -- the fault flags is set.
  pub receive_valid_iff :
      (ms : List CanMessage) (m : CanMessage) (v : VehicleNode PublicKey) (s : BatteryStatus F)
      → m.arbitration_id ≡ battery_status
      → ((receive ops m (after_all ops ms v)).0 ≡ ok (valid s)) ↔ (
          (length m.content ≡ 19)
          × (decode_status ops m ≡ ok s)
          × IsPlausible ops (highest v.replay.last_counter (seen ops ms)) s)
  receive_valid_iff ms m v s id =
      let w = after_all ops ms v in
      let reached = after_all-highest ops ms v in
      let verdict : (receive ops m w).0 ≡ ok (handle_status ops m w).0 =
        ap (λ (p : Result (Verdict F) × VehicleNode PublicKey). p.0) (receive_status ops m w id) in
      rw (verdict, ← reached) (sound w, complete w)
    where
      verdict_of : {a b : Verdict F} → ok a ≡ ok b → a ≡ b
      verdict_of h = cc

      sound_on :
          (w : VehicleNode PublicKey) (t : BatteryStatus F)
          → Handled ops m w t
          → (handle_status ops m w).0 ≡ valid s
          → (t ≡ s) × IsPlausible ops w.replay.last_counter t
      sound_on w t (stale old e) h = cc (rw e at h)
      sound_on w t (fresh new e) h = judge_valid ops w.replay.last_counter t s new (rw e at h)

      sound :
          (w : VehicleNode PublicKey)
          → ok (handle_status ops m w).0 ≡ ok (valid s)
          → (length m.content ≡ 19)
            × (decode_status ops m ≡ ok s)
            × IsPlausible ops w.replay.last_counter s
      sound w h = elim (Bool-cases (length m.content == 19)) [
        | inr short ↦ cc (rw (handle_status_malformed ops m w short) at h)
        | inl whole ↦
            let size : length m.content ≡ 19 = ground arith in
            let (t, d) = decode_status_total ops m size in
            let (same, p) = sound_on w t (handle_status-Handled ops m w t size d) (verdict_of h) in
            (size, rw same at d, rw same at p)
      ]

      complete_on :
          (w : VehicleNode PublicKey)
          → Handled ops m w s
          → IsPlausible ops w.replay.last_counter s
          → ok (handle_status ops m w).0 ≡ ok (valid s)
      complete_on w (stale old e) p = absurd (omega (arith, p.newer))
      complete_on w (fresh new e) p =
          rw e (ap (λ (x : Verdict F). ok x) (judge-IsPlausible ops w.replay.last_counter s p))

      complete :
          (w : VehicleNode PublicKey)
          → (length m.content ≡ 19)
            × (decode_status ops m ≡ ok s)
            × IsPlausible ops w.replay.last_counter s
          → ok (handle_status ops m w).0 ≡ ok (valid s)
      complete w (size, d, p) = complete_on w (handle_status-Handled ops m w s size d) p
