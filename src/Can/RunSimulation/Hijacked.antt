-- ===== src/Can/RunSimulation/Hijacked.antt =====
-- What the vehicle prints of the session that is hijacked, and what the flood leaves.
use batt_lock.Base.{◌≡◌, refl, true, false, List, [], ◌∷◌, ◌++◌, All, some, ok}
use batt_lock.Base.Texts.{Text}
use batt_lock.Base.Utf8.{decode, decode-encode, encode_total, IsScalar, scalar-IsChar}
use batt_lock.Base.Float.{FloatOps}
use batt_lock.Base.Json.{JsonOps}
use batt_lock.Can.Message.{Bytes, CanMessage, session_id_id}
use batt_lock.Can.Transport
use batt_lock.Can.Transport.{new_bus}
use batt_lock.Can.Codec.{encode_session_id, decode_session_id}
use batt_lock.Can.Battery.{BatteryNode, receive_session_id}
use batt_lock.Can.Vehicle
use batt_lock.Can.Vehicle.{
  VehicleNode, Verdict, session_received, handle_session_id, send_session_id,
}
use batt_lock.Crypto.Library.{CryptoOps}
use batt_lock.Crypto.Models.{BatteryIdentity}
use batt_lock.Crypto.Auth.{create_session}
use batt_lock.Attacks.Bus.{capture_session, replay_session}
use batt_lock.Can.RunSimulation.Steps.{
  Scene, bus_send, bus_receive, receive_battery, receive_vehicle, deliver,
}
use batt_lock.Can.RunSimulation.{part_8_hijack}

abbrev session_frame : Bytes → CanMessage
session_frame payload = record { arbitration_id = session_id_id; content = payload }

-- The vehicle in the session `token`.
abbrev pub in_session : {PublicKey : Type 0} → Text → VehicleNode PublicKey → VehicleNode PublicKey
in_session token v = record v { session_id = some token; session_active = true }

module _ {F PublicKey : Type 0} where
  -- A scene whose bus is empty.
  abbrev pub quiet :
      VehicleNode PublicKey → BatteryNode BatteryIdentity → List (Verdict F) → Scene F PublicKey
  quiet v node verdicts = record {
    bus = new_bus;
    vehicle_node = v;
    battery_node = node;
    verdicts = verdicts;
  }

  battery_reads :
      (token : Text) (payload : Bytes) (v : VehicleNode PublicKey)
      (node : BatteryNode BatteryIdentity) (verdicts : List (Verdict F))
      → decode payload ≡ ok token
      → receive_battery (bus_send (session_frame payload) (quiet v node verdicts))
        ≡ ok (quiet v node verdicts)
  unfolding receive_battery bus_receive bus_send Transport.send Transport.receive receive_session_id
      decode_session_id
  battery_reads token payload v node verdicts d = rw d refl

module _ {F PublicKey : Type 0} (ops : FloatOps F) where
  receive_new :
      (token : Text) (payload : Bytes) (v : VehicleNode PublicKey)
      → decode payload ≡ ok token
      → v.session_active ≡ false
      → Vehicle.receive ops (session_frame payload) v
        ≡ (ok (session_received token), in_session token v)
  unfolding Vehicle.receive handle_session_id
  receive_new token payload v d off = rw (handle_session_id, d, off) refl

  deliver_new :
      (token : Text) (payload : Bytes) (v : VehicleNode PublicKey)
      (node : BatteryNode BatteryIdentity) (verdicts : List (Verdict F))
      → decode payload ≡ ok token
      → v.session_active ≡ false
      → deliver ops (session_frame payload) (quiet v node verdicts)
        ≡ ok (quiet (in_session token v) node (verdicts ++ session_received token ∷ []))
  unfolding deliver receive_vehicle bus_receive bus_send Transport.send Transport.receive
  deliver_new token payload v node verdicts d off = rw (receive_new token payload v d off) refl

module _ {PrivateKey PublicKey F : Type 0} (crypto : CryptoOps PrivateKey PublicKey)
    (json : JsonOps) (ops : FloatOps F) where
  -- The session ID that the vehicle sends in part 8 is replayed to it by the attacker. If no session is
  -- active at the vehicle before, and the bus is empty, it reports the replayed ID as a new session, and not as hijacked: what it
  -- sends itself it does not remember.
  pub part_8_hijack_unnoticed :
      (token : Text) (v : VehicleNode PublicKey) (node : BatteryNode BatteryIdentity)
      (verdicts : List (Verdict F))
      → All IsScalar token
      → v.session_active ≡ false
      → part_8_hijack crypto json ops token (quiet v node verdicts)
        ≡ ok (quiet (in_session token v) node (verdicts ++ session_received token ∷ []))
  unfolding part_8_hijack send_session_id create_session encode_session_id capture_session
      replay_session
  part_8_hijack_unnoticed token v node verdicts scalar off =
      let (payload, e) = encode_total token scalar in
      let d = decode-encode token payload (scalar-IsChar token scalar) e in
      rw
        (
          e,
          battery_reads token payload v node verdicts d,
          deliver_new ops token payload v node verdicts d off,
        )
        refl
