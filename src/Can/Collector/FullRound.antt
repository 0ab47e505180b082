-- ===== src/Can/Collector/FullRound.antt =====
-- A complete round of status frames, as a sender encodes them.
use batt_lock.Base.{◌≡◌, List, [], ◌∷◌, ◌++◌, All, some, none, ok}
use batt_lock.Base.Float.{FloatOps, IsIeee}
use batt_lock.Can.Message.{CanMessage}
use batt_lock.Can.Status.{BatteryStatus, encode_status_a, encode_status_b, encode_status_c}
use batt_lock.Can.Status.RoundTrip.{
  rounded, status_from_frames-encode, encode_status_a-id, encode_status_b-id, encode_status_c-id,
}
use batt_lock.Can.Collector.{StatusCollector, new_collector, feed_all}
use batt_lock.Can.Collector.Rounds.{IsOther}
use batt_lock.Can.Collector.Emission.{nones, round_abc, round_acb}

-- The frames A, B and C that a status is encoded in, fed with A first and B and C in either order,
-- with frames of other kinds between them, to a collector in any state: nothing is emitted before
-- the last frame, the last frame emits the status with its measurements rounded to single
-- precision, and the buffer is empty again.
pub full_round :
    {F : Type 0} (ops : FloatOps F) (ieee : IsIeee ops) (st : BatteryStatus F) (a b c : CanMessage)
    (u v : List CanMessage) (s : StatusCollector)
    → encode_status_a ops st ≡ ok a
    → encode_status_b ops st ≡ ok b
    → encode_status_c ops st ≡ ok c
    → All IsOther u
    → All IsOther v
    → (feed_all ops (a ∷ (u ++ (b ∷ (v ++ (c ∷ []))))) s ≡ (
      ok none ∷ (nones ops u ++ (ok none ∷ (nones ops v ++ (ok (some (rounded ops st)) ∷ [])))),
      new_collector,
    ))
      × (feed_all ops (a ∷ (u ++ (c ∷ (v ++ (b ∷ []))))) s ≡ (
        ok none ∷ (nones ops u ++ (ok none ∷ (nones ops v ++ (ok (some (rounded ops st)) ∷ [])))),
        new_collector,
      ))
full_round ops ieee st a b c u v s ea eb ec hu hv =
    let (d, _, _, _) = status_from_frames-encode ops ieee st a b c ea eb ec in
    let ia = encode_status_a-id ops st a ea in
    let ib = encode_status_b-id ops st b eb in
    let ic = encode_status_c-id ops st c ec in
    (
      round_abc ops a b c u v s (rounded ops st) ia ib ic hu hv d,
      round_acb ops a b c u v s (rounded ops st) ia ib ic hu hv d,
    )
