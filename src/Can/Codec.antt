-- ===== src/Can/Codec.antt =====
-- The frames of `can/encoder.py` and `can/decoder.py` that are not status frames.
pub mod RoundTrip
use batt_lock.Base.{
  ℕ, Bool, true, false, not, ◌==◌, if◌then◌else◌, List, [], ◌∷◌, Result, ok, err, ◌>>=◌, type_error,
  index_error,
}
use batt_lock.Base.Texts.{Text}
use batt_lock.Base.Utf8.{encode, decode}
use batt_lock.Base.Base64.{b64encode, b64decode}
use batt_lock.Base.Json.{Value, text, other, dict, no_dict, JsonOps, item}
use batt_lock.Can.Message.{
  Bytes, CanMessage, auth_request_id, nonce_id, signature_id, auth_result_id, certificate_id,
  session_id_id,
}
use batt_lock.Crypto.Models.{Certificate, Session}

unfoldable pub encode_battery_id : Text → Result CanMessage
encode_battery_id battery_id = do
  payload ← encode battery_id
  ok (record { arbitration_id = auth_request_id; content = payload })

unfoldable pub decode_battery_id : CanMessage → Result Text
decode_battery_id message = decode message.content

unfoldable pub encode_nonce : Bytes → CanMessage
encode_nonce nonce = record { arbitration_id = nonce_id; content = nonce }

unfoldable pub decode_nonce : CanMessage → Bytes
decode_nonce message = message.content

unfoldable pub encode_signature : Bytes → CanMessage
encode_signature signature = record { arbitration_id = signature_id; content = signature }

unfoldable pub decode_signature : CanMessage → Bytes
decode_signature message = message.content

-- `bytes([int(result)])`
unfoldable pub encode_auth_result : Bool → CanMessage
encode_auth_result result = record {
  arbitration_id = auth_result_id;
  content = (if result then 1 else 0) ∷ [];
}

-- `bool(message.data[0])`
unfoldable pub decode_auth_result : CanMessage → Result Bool
decode_auth_result message = elim message.content [
  | [] ↦ err index_error
  | b ∷ bs ↦ ok (not (b == 0))
]

unfoldable pub encode_session_id : Session → Result CanMessage
encode_session_id session = do
  payload ← encode session.session_id
  ok (record { arbitration_id = session_id_id; content = payload })

unfoldable pub decode_session_id : CanMessage → Result Text
decode_session_id message = decode message.content

-- The data is b"AUTH".
unfoldable pub encode_auth_request : CanMessage
encode_auth_request = record { arbitration_id = auth_request_id; content = 65 ∷ 85 ∷ 84 ∷ 72 ∷ [] }

unfoldable pub decode_auth_request : CanMessage → Result Text
decode_auth_request message = decode message.content

-- "battery_id"
abbrev pub battery_id_key : Text
battery_id_key = 98 ∷ 97 ∷ 116 ∷ 116 ∷ 101 ∷ 114 ∷ 121 ∷ 95 ∷ 105 ∷ 100 ∷ []

-- "manufacturer_id"
abbrev pub manufacturer_id_key : Text
manufacturer_id_key =
    109 ∷ 97 ∷ 110 ∷ 117 ∷ 102 ∷ 97 ∷ 99 ∷ 116 ∷ 117 ∷ 114 ∷ 101 ∷ 114 ∷ 95 ∷ 105 ∷ 100 ∷ []

-- "public_key"
abbrev pub public_key_key : Text
public_key_key = 112 ∷ 117 ∷ 98 ∷ 108 ∷ 105 ∷ 99 ∷ 95 ∷ 107 ∷ 101 ∷ 121 ∷ []

-- "issue_date"
abbrev pub issue_date_key : Text
issue_date_key = 105 ∷ 115 ∷ 115 ∷ 117 ∷ 101 ∷ 95 ∷ 100 ∷ 97 ∷ 116 ∷ 101 ∷ []

-- "expiry_date"
abbrev pub expiry_date_key : Text
expiry_date_key = 101 ∷ 120 ∷ 112 ∷ 105 ∷ 114 ∷ 121 ∷ 95 ∷ 100 ∷ 97 ∷ 116 ∷ 101 ∷ []

-- "signature"
abbrev pub signature_key : Text
signature_key = 115 ∷ 105 ∷ 103 ∷ 110 ∷ 97 ∷ 116 ∷ 117 ∷ 114 ∷ 101 ∷ []

-- The dict that is dumped.
unfoldable pub certificate_fields : Certificate → List (Text × Value)
certificate_fields certificate =
    (battery_id_key, certificate.battery_id)
    ∷ (manufacturer_id_key, certificate.manufacturer_id)
    ∷ (public_key_key, text (b64encode certificate.public_key))
    ∷ (issue_date_key, certificate.issue_date)
    ∷ (expiry_date_key, certificate.expiry_date)
    ∷ (signature_key, text (b64encode certificate.signature))
    ∷ []

unfoldable pub encode_certificate : JsonOps → Certificate → Result CanMessage
unfolding certificate_fields
encode_certificate json certificate = do
  payload ← encode (json.dumps (certificate_fields certificate))
  ok (record { arbitration_id = certificate_id; content = payload })

-- `base64.b64decode` of a JSON value.
unfoldable pub decode_value : Value → Result Bytes
decode_value (text t) = b64decode t
decode_value other = err type_error

unfoldable pub certificate_from_dict : List (Text × Value) → Result Certificate
certificate_from_dict data_dict = do
  battery_id ← item battery_id_key data_dict
  manufacturer_id ← item manufacturer_id_key data_dict
  public_key_text ← item public_key_key data_dict
  public_key ← decode_value public_key_text
  issue_date ← item issue_date_key data_dict
  expiry_date ← item expiry_date_key data_dict
  signature_text ← item signature_key data_dict
  signature ← decode_value signature_text
  ok (record {
    battery_id = battery_id;
    manufacturer_id = manufacturer_id;
    public_key = public_key;
    issue_date = issue_date;
    expiry_date = expiry_date;
    signature = signature;
  })

-- A document that is no dict cannot be indexed by a str.
unfoldable pub decode_certificate : JsonOps → CanMessage → Result Certificate
decode_certificate json message = do
  payload ← decode message.content
  document ← json.loads payload
  elim document [ dict data_dict ↦ certificate_from_dict data_dict | no_dict ↦ err type_error ]
