-- ===== src/Tests/Codec.antt =====
-- The codec at a small certificate.
use batt_lock.Base.{◌≡◌, refl, true, [], ◌∷◌, ok, arith}
use batt_lock.Base.Json.{text}
use batt_lock.Can.Message.{CanMessage, certificate_id}
use batt_lock.Crypto.Models.{Certificate, Session}
use batt_lock.Can.Codec.{
  encode_certificate, decode_certificate, encode_nonce, decode_nonce, encode_signature,
  decode_signature, encode_auth_result, decode_auth_result, encode_auth_request,
  decode_auth_request,
}
use batt_lock.Can.Codec.RoundTrip.{
  IsIssuable, decode_certificate-encode_certificate, control_frames,
}
use batt_lock.Tests.Json.{triples, triples-IsJson}

abbrev pub sample : Certificate
sample = record {
  battery_id = text (66 ∷ []);
  manufacturer_id = text (77 ∷ 233 ∷ []);
  public_key = 7 ∷ 255 ∷ [];
  issue_date = text (49 ∷ []);
  expiry_date = text (50 ∷ []);
  signature = 1 ∷ 2 ∷ 3 ∷ 4 ∷ [];
}

sample-IsIssuable : IsIssuable sample
sample-IsIssuable = record {
  battery_id = ((omega arith, refl), tt);
  manufacturer_id = ((omega arith, refl), ((omega arith, refl), tt));
  issue_date = ((omega arith, refl), tt);
  expiry_date = ((omega arith, refl), tt);
  public_key = (omega arith, (omega arith, tt));
  signature = (omega arith, (omega arith, (omega arith, (omega arith, tt))));
}

decode_certificate-encode_certificate_example :
    (message : CanMessage) × (encode_certificate triples sample ≡ ok message)
    × (message.arbitration_id ≡ certificate_id)
    × (decode_certificate triples message ≡ ok sample)
decode_certificate-encode_certificate_example =
    decode_certificate-encode_certificate triples sample triples-IsJson sample-IsIssuable

abbrev session : Session
session = record { session_id = 97 ∷ 49 ∷ []; battery_id = 66 ∷ [] }

control_frames_example :
    (decode_nonce (encode_nonce (1 ∷ [])) ≡ 1 ∷ [])
    × (decode_signature (encode_signature (2 ∷ [])) ≡ 2 ∷ [])
    × (decode_auth_result (encode_auth_result true) ≡ ok true)
    × (decode_auth_request encode_auth_request ≡ ok (65 ∷ 85 ∷ 84 ∷ 72 ∷ []))
control_frames_example = control_frames (1 ∷ []) (2 ∷ []) true
