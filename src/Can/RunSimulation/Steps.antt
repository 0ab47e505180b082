-- ===== src/Can/RunSimulation/Steps.antt =====
-- `can/simulation/run_simulation.py`: a battery and a vehicle that share a bus, and the steps of `main`. What
-- the vehicle prints is kept as its verdicts.
use batt_lock.Base.{
  ◌==◌, if◌then◌else◌, List, [], ◌∷◌, ◌++◌, none, some, Result, ok, err, ◌>>=◌, attribute_error,
}
use batt_lock.Base.Texts.{codes}
use batt_lock.Base.Float.{FloatOps}
use batt_lock.Can.Message.{CanMessage, nonce_id, auth_result_id, session_id_id}
use batt_lock.Can.Transport
use batt_lock.Can.Transport.{CanBus, new_bus}
use batt_lock.Can.Battery.{
  BatteryNode, new_battery_node, send_status, receive_nonce, receive_auth_result,
  receive_session_id,
}
use batt_lock.Can.Vehicle
use batt_lock.Can.Vehicle.{VehicleNode, new_vehicle, Verdict}
use batt_lock.Crypto.Models.{BatteryIdentity}

pub record Scene (F PublicKey : Type 0) : Type 0 where
  pub bus : CanBus
  pub vehicle_node : VehicleNode PublicKey
  pub battery_node : BatteryNode BatteryIdentity
  pub verdicts : List (Verdict F)

abbrev pub the_battery : BatteryIdentity
the_battery = record {
  battery_id = codes "BAT001";
  serial_number = codes "SN001";
  manufacturer_id = codes "TESLA";
}

abbrev pub new_scene : {F PublicKey : Type 0} → PublicKey → Scene F PublicKey
new_scene root_ca_public_key = record {
  bus = new_bus;
  vehicle_node = new_vehicle (some root_ca_public_key);
  battery_node = new_battery_node the_battery;
  verdicts = [];
}

module _ {F PublicKey : Type 0} where
  unfoldable pub bus_send : CanMessage → Scene F PublicKey → Scene F PublicKey
  bus_send message scene = record scene { bus = Transport.send message scene.bus }

  -- `bus.receive()`, for a caller that looks at an attribute of the frame at once.
  unfoldable pub bus_receive : Scene F PublicKey → Result (CanMessage × Scene F PublicKey)
  bus_receive scene =
      let (received, bus) = Transport.receive scene.bus in
      elim received [
        | none ↦ err attribute_error
        | some message ↦ ok (message, record scene { bus = bus })
      ]

  -- `_receive_vehicle`
  unfoldable pub receive_vehicle : FloatOps F → Scene F PublicKey → Result (Scene F PublicKey)
  receive_vehicle ops scene = do
    (message, scene₁) ← bus_receive scene
    let (printed, vehicle_node) = Vehicle.receive ops message scene₁.vehicle_node
    verdict ← printed
    ok (record scene₁ { vehicle_node = vehicle_node; verdicts = scene₁.verdicts ++ verdict ∷ [] })

  -- `_receive_battery`
  unfoldable pub receive_battery : Scene F PublicKey → Result (Scene F PublicKey)
  receive_battery scene = do
    (message, scene₁) ← bus_receive scene
    if message.arbitration_id == nonce_id
        then ok (record scene₁ { battery_node = (receive_nonce message scene₁.battery_node).1 })
        else if message.arbitration_id == auth_result_id
        then (receive_auth_result message >>= λ result. ok scene₁)
        else if message.arbitration_id == session_id_id
        then (receive_session_id message >>= λ session_id. ok scene₁)
        else ok scene₁

  unfoldable pub deliver : FloatOps F → CanMessage → Scene F PublicKey → Result (Scene F PublicKey)
  deliver ops message scene = receive_vehicle ops (bus_send message scene)

  unfoldable pub deliver_all :
      FloatOps F → List CanMessage → Scene F PublicKey → Result (Scene F PublicKey)
  deliver_all ops [] scene = ok scene
  deliver_all ops (message ∷ messages) scene = do
    scene₁ ← deliver ops message scene
    deliver_all ops messages scene₁

  unfoldable pub next_status :
      FloatOps F → Scene F PublicKey → Result (CanMessage × Scene F PublicKey)
  next_status ops scene = do
    let (sent, battery_node) = send_status ops scene.battery_node
    message ← sent
    ok (message, record scene { battery_node = battery_node })
