-- ===== src/Attacks/Fuzzing/Resilience.antt =====
-- What the vehicle makes of corrupted status frames.
use batt_lock.Base.{
  Bool, if◌then◌else◌, ◌==◌, ◌≡◌, ◌≢◌, inl, inr, refl, ◌∙◌, true, false, length, Error, ok, err,
  arith,
}
use batt_lock.Base.Float.{FloatOps}
use batt_lock.Can.Message.{CanMessage, battery_status}
use batt_lock.Can.Vehicle.{VehicleNode, malformed, handle_status, receive}
use batt_lock.Can.Vehicle.Telemetry.{receive_status}
use batt_lock.Can.Vehicle.Raises.{receive_raises_iff}
use batt_lock.Attacks.Fuzzing.{
  Source, randint, Operation, flip, truncate, extend, shuffle, choose, corrupt,
  corrupt_status_frame,
}
use batt_lock.Attacks.Fuzzing.Bounds.{corrupt_size}

-- Truncated or extended.
abbrev pub changes_size : Operation → Bool
changes_size truncate = true
changes_size extend = true
changes_size _ = false

module _ {F PublicKey : Type 0} (ops : FloatOps F) where
  malformed_size :
      (m : CanMessage) (v : VehicleNode PublicKey)
      → m.arbitration_id ≡ battery_status
      → length m.content ≢ 19
      → receive ops m v ≡ (ok malformed, v)
  unfolding handle_status
  malformed_size m v id size =
      let other : (length m.content == 19) ≡ false = ground arith in
      receive_status ops m v id ∙ rw other refl

  status_ends :
      (m : CanMessage) (v : VehicleNode PublicKey) (e : Error)
      → m.arbitration_id ≡ battery_status
      → (receive ops m v).0 ≢ err e
  status_ends m v e id h = elim ((receive_raises_iff ops m v e).0.0 h).0 [
    | inl auth ↦ absurd (omega arith)
    | inr session ↦ absurd (omega arith)
  ]

  after_operation :
      (op : Operation) (original : CanMessage) (source : Source) (v : VehicleNode PublicKey)
      → original.arbitration_id ≡ battery_status
      → length original.content ≡ 19
      → let frame = record original { content = (corrupt op original.content source).0 } in
        if changes_size op
        then receive ops frame v ≡ (ok malformed, v)
        else length frame.content ≡ 19
  after_operation flip original source v id size =
      corrupt_size flip original.content source (omega arith) ∙ size
  after_operation truncate original source v id size =
      malformed_size (record original { content = (corrupt truncate original.content source).0 }) v
        id (omega (arith, corrupt_size truncate original.content source))
  after_operation extend original source v id size =
      malformed_size (record original { content = (corrupt extend original.content source).0 }) v id
        (omega (arith, corrupt_size extend original.content source))
  after_operation shuffle original source v id size =
      corrupt_size shuffle original.content source (omega arith) ∙ size

  -- The fuzzed form of a status frame, whatever is drawn, never makes the vehicle raise an exception. If it
  -- was truncated or extended it is reported as malformed and the vehicle is as before; if it was flipped or
  -- shuffled it has 19 bytes as before.
  pub receive-corrupt_status_frame :
      (original : CanMessage) (source : Source) (v : VehicleNode PublicKey)
      → original.arbitration_id ≡ battery_status
      → length original.content ≡ 19
      → let frame = (corrupt_status_frame original source).0 in
        ((e : Error) → (receive ops frame v).0 ≢ err e)
        × (if changes_size (choose (randint 0 3 source).0)
            then receive ops frame v ≡ (ok malformed, v)
            else length frame.content ≡ 19)
  unfolding corrupt_status_frame
  receive-corrupt_status_frame original source v id size =
      let (n, source₁) = randint 0 3 source in
      (
        λ e. status_ends (corrupt_status_frame original source).0 v e id,
        after_operation (choose n) original source₁ v id size,
      )
