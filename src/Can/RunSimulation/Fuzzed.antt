-- ===== src/Can/RunSimulation/Fuzzed.antt =====
-- When the part with the random frames ends.
use batt_lock.Base.{
  ◌+◌, ◌<◌, ◌^◌, ◌≡◌, ◌↔◌, refl, ap, List, [], ◌∷◌, ◌++◌, All, length, Error, Result, ok, err,
  ◌>>=◌, >>=-eq-ok,
}
use batt_lock.Base.Texts.{Text}
use batt_lock.Base.Utf8.{decode}
use batt_lock.Base.Float.{FloatOps, IsIeee}
use batt_lock.Can.Message.{CanMessage, battery_status}
use batt_lock.Can.Transport
use batt_lock.Can.Status.RoundTrip.{decode_status-encode_status, encode_status-id}
use batt_lock.Can.Battery.{BatteryNode, own_status, send_status}
use batt_lock.Can.Vehicle
use batt_lock.Can.Vehicle.{VehicleNode, Verdict}
use batt_lock.Can.Vehicle.Genuine.{own_encoded}
use batt_lock.Can.Vehicle.Raises.{HoldsText, receive_raises_iff}
use batt_lock.Crypto.Models.{BatteryIdentity}
use batt_lock.Crypto.Counters.{next}
use batt_lock.Attacks.Fuzzing.{Source, fuzz, corrupt_status_frame}
use batt_lock.Attacks.Fuzzing.Resilience.{receive-corrupt_status_frame}
use batt_lock.Can.RunSimulation.Steps.{
  Scene, bus_send, bus_receive, receive_vehicle, deliver, deliver_all, next_status,
}
use batt_lock.Can.RunSimulation.{part_7}
use batt_lock.Can.RunSimulation.Hijacked.{quiet}

-- A payload that is read as a str is UTF-8.
abbrev pub IsReadable : CanMessage → Type 0
IsReadable m = HoldsText m → (t : Text) × (decode m.content ≡ ok t)

module _ {F PublicKey : Type 0} (ops : FloatOps F) where
  -- What delivering a frame comes to.
  data Delivered (m : CanMessage) (v : VehicleNode PublicKey) (node : BatteryNode BatteryIdentity)
      (verdicts : List (Verdict F)) : Type 0 where
    printed :
        (v' : VehicleNode PublicKey) (verdict : Verdict F)
        → IsReadable m
        → deliver ops m (quiet v node verdicts) ≡ ok (quiet v' node (verdicts ++ verdict ∷ []))
        → Delivered m v node verdicts
    raised :
        (e : Error)
        → HoldsText m
        → decode m.content ≡ err e
        → deliver ops m (quiet v node verdicts) ≡ err e
        → Delivered m v node verdicts

  deliver-Delivered :
      (m : CanMessage) (v : VehicleNode PublicKey) (node : BatteryNode BatteryIdentity)
      (verdicts : List (Verdict F))
      → Delivered m v node verdicts
  unfolding deliver receive_vehicle bus_receive bus_send Transport.send Transport.receive
  deliver-Delivered m v node verdicts = go (Vehicle.receive ops m v) refl
    where
      readable :
          (verdict : Verdict F) (v' : VehicleNode PublicKey)
          → Vehicle.receive ops m v ≡ (ok verdict, v')
          → HoldsText m
          → (r : Result Text) → decode m.content ≡ r
          → (t : Text) × (decode m.content ≡ ok t)
      readable verdict v' e text (ok t) d = (t, d)
      readable verdict v' e text (err x) d =
          let raises = (receive_raises_iff ops m v x).0.1 (text, d) in cc (rw e at raises)

      go :
          (r : Result (Verdict F) × VehicleNode PublicKey)
          → Vehicle.receive ops m v ≡ r
          → Delivered m v node verdicts
      go (ok verdict, v') e =
          printed v' verdict (λ text. readable verdict v' e text (decode m.content) refl)
            (rw e refl)
      go (err x, v') e =
          let (text, d) =
            (receive_raises_iff ops m v x).0.0
              (ap (λ (p : Result (Verdict F) × VehicleNode PublicKey). p.0) e) in
          raised x text d (rw e refl)

  deliver_all_ends :
      (ms : List CanMessage) (v : VehicleNode PublicKey) (node : BatteryNode BatteryIdentity)
      (verdicts : List (Verdict F))
      → All IsReadable ms
      → (v' : VehicleNode PublicKey) × (verdicts' : List (Verdict F)) × (deliver_all ops ms
            (quiet v node verdicts)
          ≡ ok (quiet v' node verdicts'))
  unfolding deliver_all
  deliver_all_ends [] v node verdicts all = (v, verdicts, refl)
  deliver_all_ends (m ∷ ms) v node verdicts all = elim (deliver-Delivered m v node verdicts) [
    | printed v' verdict _ e ↦
        let (v'', verdicts', rest) = deliver_all_ends ms v' node (verdicts ++ verdict ∷ []) all.1 in
        (v'', verdicts', rw e rest)
    | raised x text d e ↦ let (t, read) = all.0 text in cc
  ]

  deliver_all-IsReadable :
      (ms : List CanMessage) (v : VehicleNode PublicKey) (node : BatteryNode BatteryIdentity)
      (verdicts : List (Verdict F)) (s : Scene F PublicKey)
      → deliver_all ops ms (quiet v node verdicts) ≡ ok s
      → All IsReadable ms
  unfolding deliver_all
  deliver_all-IsReadable [] v node verdicts s h = tt
  deliver_all-IsReadable (m ∷ ms) v node verdicts s h = elim (deliver-Delivered m v node verdicts) [
    | printed v' verdict readable e ↦
        (readable, deliver_all-IsReadable ms v' node (verdicts ++ verdict ∷ []) s (rw e at h))
    | raised x text d e ↦ cc (rw e at h)
  ]

module _ {F PublicKey : Type 0} (ops : FloatOps F) (ieee : IsIeee ops) where
  corrupted_ends :
      (m : CanMessage) (source : Source) (v : VehicleNode PublicKey)
      (node : BatteryNode BatteryIdentity) (verdicts : List (Verdict F))
      → m.arbitration_id ≡ battery_status
      → length m.content ≡ 19
      → (s : Scene F PublicKey) × (deliver ops
            (corrupt_status_frame m source).0
            (quiet v node verdicts)
          ≡ ok s)
  corrupted_ends m source v node verdicts id size =
      let frame = (corrupt_status_frame m source).0 in
      elim (deliver-Delivered ops frame v node verdicts) [
        | printed v' verdict _ e ↦ (quiet v' node (verdicts ++ verdict ∷ []), e)
        | raised x text d e ↦
            let raises = (receive_raises_iff ops frame v x).0.1 (text, d) in
            absurd ((receive-corrupt_status_frame ops m source v id size).0 x raises)
      ]

  after_frames :
      (source : Source) (v : VehicleNode PublicKey) (node : BatteryNode BatteryIdentity)
      (verdicts : List (Verdict F))
      → node.counter.counter + 1 < 2 ^ 32
      → (s : Scene F PublicKey) × ((do
        (status, scene₂) ← next_status ops (quiet v node verdicts)
        deliver ops (corrupt_status_frame status source).0 scene₂)
          ≡ ok s)
  unfolding next_status send_status next
  after_frames source v node verdicts fits =
      let n = node.counter.counter + 1 in
      let (m, e) = own_encoded ops ieee n fits in
      let (_, size) = decode_status-encode_status ops ieee (own_status ops n) m e in
      let node' = record node { counter = record { counter = n } } in
      let (s, ended) =
        corrupted_ends m source v node' verdicts (encode_status-id ops (own_status ops n) m e)
          size in
      (s, rw e ended)

  -- The part with the random frames ends, whatever is drawn, exactly if none of the five frames has the ID of
  -- an identity or a session and a payload that is no UTF-8; the corrupted status frame after them never
  -- stops it, while the battery's counter fits its four bytes.
  pub part_7_ends_iff :
      (source : Source) (v : VehicleNode PublicKey) (node : BatteryNode BatteryIdentity)
      (verdicts : List (Verdict F))
      → node.counter.counter + 1 < 2 ^ 32
      → ((s : Scene F PublicKey) × (part_7 ops source (quiet v node verdicts) ≡ ok s))
        ↔ All IsReadable (fuzz 5 source).0
  unfolding part_7
  part_7_ends_iff source v node verdicts fits = (
    λ (s, h).
        (let (_, e, _) =
            >>=-eq-ok (deliver_all ops (fuzz 5 source).0 (quiet v node verdicts)) _ h in
          deliver_all-IsReadable ops (fuzz 5 source).0 v node verdicts _ e),
    λ all.
        (let (v', verdicts', e) = deliver_all_ends ops (fuzz 5 source).0 v node verdicts all in
          let (s, ended) = after_frames (fuzz 5 source).1 v' node verdicts' fits in
          (s, rw e ended)),
  )
