-- ===== src/Can/Vehicle.antt =====
-- `can/simulation/vehicle_node.py`: the class VehicleNode. What it prints is its verdict. Its bus and the
-- time of the last status are kept by the class but never used, and are left out.
pub mod Telemetry
pub mod History
pub mod Plausible
pub mod Sessions
pub mod Genuine
pub mod Raises
use batt_lock.Base.{
  ℕ, ◌==◌, not, ◌&&◌, ◌||◌, Bool, true, false, if◌then◌else◌, ◌++◌, length, bit_or, list_eq, Option,
  none, some, Result, ok, err, ◌>>=◌,
}
use batt_lock.Base.Texts.{Text}
use batt_lock.Base.Utf8.{encode, decode}
use batt_lock.Base.Int.{and_mask}
use batt_lock.Base.Float.{FloatOps}
use batt_lock.Base.Json.{JsonOps}
use batt_lock.Base.Dates.{Moment}
use batt_lock.Base.Decimal.{decimal}
use batt_lock.Can.Message.{
  Bytes, CanMessage, auth_request_id, session_id_id, battery_status, overvoltage, undervoltage,
  overcurrent, overtemp, comm_error, auth_failure,
}
use batt_lock.Can.Status.{BatteryStatus, decode_status}
use batt_lock.Can.Codec.{
  decode_battery_id, encode_nonce, decode_signature, encode_auth_result, encode_session_id,
  encode_auth_request, decode_certificate,
}
use batt_lock.Crypto.Library.{CryptoOps}
use batt_lock.Crypto.Models.{Certificate, Session}
use batt_lock.Crypto.Counters.{ReplayProtection, new_replay, validate}
use batt_lock.Crypto.Signatures.{verify_signature, deserialize_public_key}
use batt_lock.Crypto.Certificates.{verify_certificate}

pub record VehicleNode (PublicKey : Type 0) : Type 0 where
  pub replay : ReplayProtection
  pub root_ca_public_key : Option PublicKey
  pub stored_certificate : Option Certificate
  pub challenge_data : Option Bytes
  pub session_id : Option Text
  pub session_active : Bool

abbrev pub new_vehicle : {PublicKey : Type 0} → Option PublicKey → VehicleNode PublicKey
new_vehicle root_ca_public_key = record {
  replay = new_replay;
  root_ca_public_key = root_ca_public_key;
  stored_certificate = none;
  challenge_data = none;
  session_id = none;
  session_active = false;
}

-- The lines that `receive` prints.
pub data Verdict (F : Type 0) : Type 0 where
  identity : Text → Verdict F
  malformed decoder_error replay_attack injection_attack : Verdict F
  fault_flags_raised near_limits : Verdict F
  valid : BatteryStatus F → Verdict F
  session_hijack ignored : Verdict F
  session_received : Text → Verdict F

abbrev pub fault_mask : ℕ
fault_mask =
    bit_or
      (bit_or (bit_or (bit_or (bit_or overvoltage undervoltage) overcurrent) overtemp) comm_error)
      auth_failure

module _ {F : Type 0} (ops : FloatOps F) where
  -- The tests of `_handle_status` behind the replay window.
  unfoldable pub out_of_range : BatteryStatus F → Bool
  out_of_range status =
      ops.gt status.voltage (ops.literal 100 0)
      || ops.gt status.current (ops.literal 500 0)
      || ops.gt status.temperature (ops.literal 150 0)

  unfoldable pub flags_raised : BatteryStatus F → Bool
  flags_raised status = not (and_mask status.fault_flags fault_mask == 0)

  -- VOLTAGE_WARN, CURRENT_WARN and TEMPERATURE_WARN.
  unfoldable pub suspicious : BatteryStatus F → Bool
  suspicious status =
      ops.gt status.voltage (ops.literal 95 0)
      || ops.gt status.current (ops.literal 450 0)
      || ops.gt status.temperature (ops.literal 140 0)

  unfoldable pub judge : BatteryStatus F → Verdict F
  judge status =
      if out_of_range status
      then injection_attack
      else if flags_raised status
      then fault_flags_raised
      else if suspicious status
      then near_limits
      else valid status

  unfoldable pub handle_status :
      {PublicKey : Type 0} → CanMessage → VehicleNode PublicKey → Verdict F × VehicleNode PublicKey
  handle_status message v =
      if not (length message.content == 19)
      then (malformed, v)
      else elim (decode_status ops message) [
        | err e ↦ (decoder_error, v)
        | ok status ↦
            let (fresh, replay) = validate status.counter v.replay in
            if not fresh
            then (replay_attack, record v { replay = replay })
            else (judge status, record v { replay = replay })
      ]

-- `session_id == self._session_id`, which is None at first.
abbrev pub same_id : Text → Option Text → Bool
same_id t none = false
same_id t (some u) = list_eq t u

module _ {F PublicKey : Type 0} where
  -- A payload that is no UTF-8 raises.
  unfoldable pub handle_session_id :
      CanMessage → VehicleNode PublicKey → Result (Verdict F) × VehicleNode PublicKey
  handle_session_id message v = elim (decode message.content) [
    | err e ↦ (err e, v)
    | ok session_id ↦
        if v.session_active && same_id session_id v.session_id then (ok session_hijack, v) else (
          ok (session_received session_id),
          record v { session_id = some session_id; session_active = true },
        )
  ]

  unfoldable pub receive :
      FloatOps F → CanMessage → VehicleNode PublicKey → Result (Verdict F) × VehicleNode PublicKey
  receive ops message v =
      if message.arbitration_id == auth_request_id
      then ((decode_battery_id message >>= λ battery_id. ok (identity battery_id)), v)
      else if message.arbitration_id == battery_status
      then (let (verdict, v') = handle_status ops message v in (ok verdict, v'))
      else if message.arbitration_id == session_id_id
      then handle_session_id message v
      else (ok ignored, v)

module _ {PrivateKey PublicKey : Type 0} (crypto : CryptoOps PrivateKey PublicKey)
    (json : JsonOps) where
  -- The certificate is stored before it is verified; verification needs the clock.
  unfoldable pub receive_and_verify_certificate :
      Moment → CanMessage → VehicleNode PublicKey → Result Bool × VehicleNode PublicKey
  receive_and_verify_certificate now message v = elim (decode_certificate json message) [
    | err e ↦ (err e, v)
    | ok certificate ↦
        let v' = record v { stored_certificate = some certificate } in
        elim v.root_ca_public_key [
          | none ↦ (ok false, v')
          | some root_ca_public_key ↦
              (verify_certificate crypto now certificate root_ca_public_key, v')
        ]
  ]

  unfoldable pub receive_and_verify_signature : CanMessage → VehicleNode PublicKey → Result Bool
  receive_and_verify_signature message v = elim v.stored_certificate [
    | none ↦ ok false
    | some certificate ↦ elim v.challenge_data [
      | none ↦ ok false
      | some challenge_data ↦ do
        let signature = decode_signature message
        public_key ← deserialize_public_key crypto certificate.public_key
        verify_signature crypto public_key challenge_data signature
    ]
  ]

  -- `receive_certificate`, kept for the older simulation.
  unfoldable pub receive_certificate : CanMessage → Result Certificate
  receive_certificate message = decode_certificate json message

-- With a timestamp, its text is sent behind the nonce.
unfoldable pub challenge_bytes : Bytes → Option ℕ → Result Bytes
challenge_bytes nonce none = ok nonce
challenge_bytes nonce (some timestamp) = do stamp ← encode (decimal timestamp); ok (nonce ++ stamp)

unfoldable pub send_nonce :
    {PublicKey : Type 0}
    → Bytes
    → Option ℕ
    → VehicleNode PublicKey
    → Result CanMessage × VehicleNode PublicKey
send_nonce nonce timestamp v = elim (challenge_bytes nonce timestamp) [
  | err e ↦ (err e, v)
  | ok challenge_data ↦
      (ok (encode_nonce challenge_data), record v { challenge_data = some challenge_data })
]

unfoldable pub send_auth_request : CanMessage
send_auth_request = encode_auth_request

unfoldable pub receive_signature : CanMessage → Bytes
receive_signature message = decode_signature message

unfoldable pub send_auth_result : Bool → CanMessage
send_auth_result result = encode_auth_result result

unfoldable pub send_session_id : Session → Result CanMessage
send_session_id session = encode_session_id session
