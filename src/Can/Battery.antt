-- ===== src/Can/Battery.antt =====
-- `can/simulation/battery_node.py`: the class BatteryNode.
use batt_lock.Base.{
  ℕ, Bool, Option, none, some, Result, ok, err, ◌>>=◌, attribute_error, runtime_error,
  no_challenge_stored,
}
use batt_lock.Base.Texts.{Text}
use batt_lock.Base.Int.{pos}
use batt_lock.Base.Float.{FloatOps}
use batt_lock.Base.Json.{JsonOps}
use batt_lock.Can.Message.{Bytes, CanMessage}
use batt_lock.Can.Status.{BatteryStatus, encode_status}
use batt_lock.Can.Codec.{
  encode_battery_id, encode_signature, encode_certificate, decode_nonce, decode_auth_result,
  decode_session_id,
}
use batt_lock.Crypto.Library.{CryptoOps}
use batt_lock.Crypto.Models.{BatteryIdentity, Certificate}
use batt_lock.Crypto.Counters.{MessageCounter, new_counter, next}
use batt_lock.Crypto.Auth.{Battery, battery_sign}

-- 51.2 V, 12.4 A and 30 degrees, and a new counter every time.
abbrev pub own_status : {F : Type 0} → FloatOps F → ℕ → BatteryStatus F
own_status ops counter = record {
  counter = pos counter;
  voltage = ops.literal 512 1;
  current = ops.literal 124 1;
  temperature = ops.literal 300 1;
  soc = pos 85;
  soh = pos 98;
  fault_flags = pos 0;
}

-- What the node asks of the battery it is made with: `battery.battery_id`, and `battery.sign(data)` with the
-- randomness of the signature.
pub record BatteryLike (B : Type 0) : Type 0 where
  pub battery_id_of : B → Result Text
  pub sign_by : ℕ → B → Bytes → Result Bytes

-- A `Battery` has its ID inside its identity, and a `BatteryIdentity` cannot sign.
abbrev pub battery_like :
    {PrivateKey PublicKey : Type 0} (crypto : CryptoOps PrivateKey PublicKey)
    → BatteryLike (Battery crypto)
battery_like crypto = record {
  battery_id_of = λ battery. err attribute_error;
  sign_by = λ coins battery message. ok (battery_sign crypto coins battery message);
}

abbrev pub identity_like : BatteryLike BatteryIdentity
identity_like = record {
  battery_id_of = λ identity. ok identity.battery_id;
  sign_by = λ coins identity message. err attribute_error;
}

pub record BatteryNode (B : Type 0) : Type 0 where
  pub battery : B
  pub counter : MessageCounter
  pub stored_challenge_data : Option Bytes

module _ {B : Type 0} where
  abbrev pub new_battery_node : B → BatteryNode B
  new_battery_node battery = record {
    battery = battery;
    counter = new_counter;
    stored_challenge_data = none;
  }

  unfoldable pub send_identity : BatteryLike B → BatteryNode B → Result CanMessage
  send_identity like node = like.battery_id_of node.battery >>= encode_battery_id

  unfoldable pub receive_nonce : CanMessage → BatteryNode B → Bytes × BatteryNode B
  receive_nonce message node =
      let challenge_data = decode_nonce message in
      (challenge_data, record node { stored_challenge_data = some challenge_data })

  unfoldable pub sign_and_respond : BatteryLike B → ℕ → BatteryNode B → Result CanMessage
  sign_and_respond like coins node = elim node.stored_challenge_data [
    | none ↦ err (runtime_error no_challenge_stored)
    | some challenge_data ↦ do
      signature ← like.sign_by coins node.battery challenge_data
      ok (encode_signature signature)
  ]

  unfoldable pub sign_challenge : BatteryLike B → ℕ → Bytes → BatteryNode B → Result Bytes
  sign_challenge like coins challenge_data node = like.sign_by coins node.battery challenge_data

  unfoldable pub send_status :
      {F : Type 0} → FloatOps F → BatteryNode B → Result CanMessage × BatteryNode B
  send_status ops node =
      let (n, counter) = next node.counter in
      (encode_status ops (own_status ops n), record node { counter = counter })

unfoldable pub receive_auth_result : CanMessage → Result Bool
receive_auth_result message = decode_auth_result message

unfoldable pub receive_session_id : CanMessage → Result Text
receive_session_id message = decode_session_id message

unfoldable pub send_certificate : JsonOps → Certificate → Result CanMessage
send_certificate json certificate = encode_certificate json certificate
