-- ===== src/Can/Vehicle/Raises.antt =====
-- The frames at which the vehicle raises an exception.
use batt_lock.Base.{
  ◌==◌, ◌≡◌, ◌⊎◌, ◌↔◌, inl, inr, refl, Bool-cases, Error, Result, ok, err, ◌>>=◌, ◌&&◌, arith,
}
use batt_lock.Base.Texts.{Text}
use batt_lock.Base.Utf8.{decode}
use batt_lock.Base.Float.{FloatOps}
use batt_lock.Can.Message.{CanMessage, auth_request_id, battery_status, session_id_id}
use batt_lock.Can.Codec.{decode_battery_id}
use batt_lock.Can.Vehicle.{VehicleNode, Verdict, identity, same_id, handle_session_id, receive}

-- Frames whose payload is read as a str.
abbrev pub HoldsText : CanMessage → Type 0
HoldsText m = (m.arbitration_id ≡ auth_request_id) ⊎ (m.arbitration_id ≡ session_id_id)

module _ {F PublicKey : Type 0} (ops : FloatOps F) where
  handle_session_id_raises :
      (m : CanMessage) (v : VehicleNode PublicKey) (e : Error)
      → (((handle_session_id {F = F} m v).0 ≡ err e) ↔ (decode m.content ≡ err e))
        × ((handle_session_id {F = F} m v).0 ≡ err e → (handle_session_id {F = F} m v).1 ≡ v)
  unfolding handle_session_id
  handle_session_id_raises m v e = go (decode m.content) refl
    where
      go :
          (r : Result Text)
          → decode m.content ≡ r
          → (((handle_session_id {F = F} m v).0 ≡ err e) ↔ (decode m.content ≡ err e))
            × ((handle_session_id {F = F} m v).0 ≡ err e → (handle_session_id {F = F} m v).1 ≡ v)
      go (err x) d = rw (handle_session_id, d) ((λ h. cc, λ h. cc), λ h. refl)
      go (ok t) d = elim (Bool-cases (v.session_active && same_id t v.session_id)) [
        | inl again ↦ rw (handle_session_id, d, again) ((λ h. cc, λ h. cc), λ h. refl)
        | inr new ↦ rw (handle_session_id, d, new) ((λ h. cc, λ h. cc), λ h. cc)
      ]

  -- The vehicle raises an exception exactly at identity and session frames whose payload is no UTF-8, and
  -- then it is as it was before. All other frames, whoever made them, have a verdict.
  pub receive_raises_iff :
      (m : CanMessage) (v : VehicleNode PublicKey) (e : Error)
      → (((receive ops m v).0 ≡ err e) ↔ (HoldsText m × (decode m.content ≡ err e)))
        × ((receive ops m v).0 ≡ err e → (receive ops m v).1 ≡ v)
  unfolding receive decode_battery_id
  receive_raises_iff m v e = elim (Bool-cases (m.arbitration_id == auth_request_id)) [
    | inl auth ↦
        rw auth (identity_raises (inl (ground arith)) identity (decode m.content), λ h. refl)
    | inr other ↦ elim (Bool-cases (m.arbitration_id == battery_status)) [
      | inl status ↦ rw (other, status) ((λ h. cc, λ h. absurd (ground arith)), λ h. cc)
      | inr other' ↦ elim (Bool-cases (m.arbitration_id == session_id_id)) [
        | inl session ↦
            let ((to, from), kept) = handle_session_id_raises m v e in
            rw (other, other', session) ((λ h. (inr (ground arith), to h), λ h. from h.1), kept)
        | inr other'' ↦
            rw (other, other', other'') ((λ h. cc, λ h. absurd (ground arith)), λ h. refl)
      ]
    ]
  ]
    where
      identity_raises :
          HoldsText m
          → (f : Text → Verdict F) (r : Result Text)
          → ((r >>= λ t. ok (f t)) ≡ err e) ↔ (HoldsText m × (r ≡ err e))
      identity_raises text f (err x) = (λ h. (text, cc), λ h. cc)
      identity_raises text f (ok t) = (λ h. cc, λ h. cc)
