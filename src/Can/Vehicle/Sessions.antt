-- ===== src/Can/Vehicle/Sessions.antt =====
-- Session IDs as the vehicle sees them.
use batt_lock.Base.{
  ◌≡◌, ◌≢◌, refl, true, false, list_eq, list_eq_refl, Option, none, some, ok, Bool-cases, inl, inr,
  ◌&&◌, arith,
}
use batt_lock.Base.Texts.{Text, list_eq_iff}
use batt_lock.Base.Utf8.{decode}
use batt_lock.Can.Message.{CanMessage}
use batt_lock.Can.Vehicle.{
  VehicleNode, session_hijack, session_received, same_id, handle_session_id,
}

same_id_sound : (t : Text) (o : Option Text) → same_id t o ≡ true → o ≡ some t
same_id_sound t none h = cc
same_id_sound t (some u) h = ground (arith, list_eq_iff t u)

module _ {F PublicKey : Type 0} where
  handle_session_id_new :
      (m : CanMessage) (v : VehicleNode PublicKey) (t : Text)
      → decode m.content ≡ ok t
      → (v.session_active && same_id t v.session_id) ≡ false
      → handle_session_id {F = F} m v
        ≡ (ok (session_received t), record v { session_id = some t; session_active = true })
  unfolding handle_session_id
  handle_session_id_new m v t d n = rw (handle_session_id, d, n)

  handle_session_id_same :
      (m : CanMessage) (v : VehicleNode PublicKey) (t : Text)
      → decode m.content ≡ ok t
      → (v.session_active && same_id t v.session_id) ≡ true
      → handle_session_id {F = F} m v ≡ (ok session_hijack, v)
  unfolding handle_session_id
  handle_session_id_same m v t d n = rw (handle_session_id, d, n)

module _ {PublicKey : Type 0} where
  kept :
      (v : VehicleNode PublicKey) (t : Text)
      → (v.session_active && same_id t v.session_id) ≡ true
      → v ≡ record v { session_id = some t; session_active = true }
  kept v t h =
      let active : v.session_active ≡ true = ground arith in
      let id = same_id_sound t v.session_id (ground arith) in cc

  -- Either way the ID is the last one then.
  handle_session_id_state :
      (F : Type 0) (m : CanMessage) (v : VehicleNode PublicKey) (t : Text)
      → decode m.content ≡ ok t
      → (handle_session_id {F = F} m v).1 ≡ record v { session_id = some t; session_active = true }
  handle_session_id_state F m v t d =
      elim (Bool-cases (v.session_active && same_id t v.session_id)) [
        | inl same ↦ rw (handle_session_id_same {F = F} m v t d same) (kept v t same)
        | inr new ↦ rw (handle_session_id_new {F = F} m v t d new) refl
      ]

module _ {F PublicKey : Type 0} where
  -- A session ID that comes a second time in a row is reported as hijacked, by whatever frame it is
  -- carried and however the first was reported, and the session stays as it is.
  pub handle_session_id_twice :
      (m n : CanMessage) (v : VehicleNode PublicKey) (t : Text)
      → decode m.content ≡ ok t
      → decode n.content ≡ ok t
      → let v' = (handle_session_id {F = F} m v).1 in
        handle_session_id {F = F} n v' ≡ (ok session_hijack, v')
  handle_session_id_twice m n v t d e =
      elim (Bool-cases (v.session_active && same_id t v.session_id)) [
        | inl same ↦ rw (handle_session_id_same m v t d same) (handle_session_id_same n v t e same)
        | inr new ↦ rw (handle_session_id_new m v t d new) (
            handle_session_id_same n (record v { session_id = some t; session_active = true }) t e
              (list_eq_refl t))
      ]

  -- Only the last session ID is remembered: after another one, an ID that has been received before is
  -- received as a new one.
  pub handle_session_id_forgotten :
      (m n : CanMessage) (v : VehicleNode PublicKey) (t u : Text)
      → decode m.content ≡ ok t
      → decode n.content ≡ ok u
      → t ≢ u
      → let v' = (handle_session_id {F = F} n (handle_session_id {F = F} m v).1).1 in
        handle_session_id {F = F} m v'
        ≡ (ok (session_received t), record v { session_id = some t; session_active = true })
  handle_session_id_forgotten m n v t u d e ne =
      let differ : list_eq t u ≡ false = ground (arith, list_eq_iff t u) in
      let differ' : list_eq u t ≡ false = ground (arith, list_eq_iff u t) in
      let first = handle_session_id_state F m v t d in
      let second =
        handle_session_id_new {F = F} n (record v { session_id = some t; session_active = true }) u
          e differ' in
      rw (first, second)
        (handle_session_id_new m (record v { session_id = some u; session_active = true }) t d
          differ)
