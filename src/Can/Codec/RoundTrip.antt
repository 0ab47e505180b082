-- ===== src/Can/Codec/RoundTrip.antt =====
-- What a frame of the handshake carries is read back.
use batt_lock.Base.{◌≡◌, ltb, ◌&&◌, arith, refl, true, false, Bool, [], ◌∷◌, All, ok}
use batt_lock.Base.Texts.{Text}
use batt_lock.Base.Utf8.{
  decode, IsScalar, decode-encode, encode_total, ascii-IsScalar, scalar-IsChar,
}
use batt_lock.Base.Base64.{b64encode, IsByte, b64decode-b64encode, b64encode_ascii}
use batt_lock.Base.Json.{Value, JsonOps, IsJson, IsText, IsKeyed, item}
use batt_lock.Can.Message.{Bytes, CanMessage, auth_request_id, certificate_id, session_id_id}
use batt_lock.Crypto.Models.{Certificate, Session}
use batt_lock.Can.Codec.{
  encode_battery_id, decode_battery_id, encode_nonce, decode_nonce, encode_signature,
  decode_signature, encode_auth_result, decode_auth_result, encode_session_id, decode_session_id,
  encode_auth_request, decode_auth_request, encode_certificate, decode_certificate,
  certificate_fields, certificate_from_dict, decode_value, battery_id_key, manufacturer_id_key,
  public_key_key, issue_date_key, expiry_date_key, signature_key,
}

-- A certificate as the program makes it: text fields without surrogates, and bytes below 256.
pub record IsIssuable (certificate : Certificate) : Type 0 where
  pub battery_id : IsText certificate.battery_id
  pub manufacturer_id : IsText certificate.manufacturer_id
  pub issue_date : IsText certificate.issue_date
  pub expiry_date : IsText certificate.expiry_date
  pub public_key : All IsByte certificate.public_key
  pub signature : All IsByte certificate.signature

-- The keys are ASCII.
ascii_only : Text → Bool
ascii_only [] = true
ascii_only (c ∷ t) = ltb c 128 && ascii_only t

text_key : (t : Text) → ascii_only t ≡ true → All IsScalar t
unfolding ascii_only
text_key [] h = tt
text_key (c ∷ t) h = ((ground arith, ground arith), text_key t (ground arith))

fields-IsKeyed : (certificate : Certificate) → IsKeyed (certificate_fields certificate)
unfolding certificate_fields
fields-IsKeyed certificate = ground arith

fields_text :
    (certificate : Certificate)
    → IsIssuable certificate
    → All (λ (p : Text × Value). All IsScalar p.0 × IsText p.1) (certificate_fields certificate)
unfolding certificate_fields ascii_only
fields_text certificate v = (
  (text_key battery_id_key refl, v.battery_id),
  (
    (text_key manufacturer_id_key refl, v.manufacturer_id),
    (
      (text_key public_key_key refl, coded certificate.public_key v.public_key),
      (
        (text_key issue_date_key refl, v.issue_date),
        (
          (text_key expiry_date_key refl, v.expiry_date),
          ((text_key signature_key refl, coded certificate.signature v.signature), tt),
        ),
      ),
    ),
  ),
)
  where
    coded : (b : Bytes) → All IsByte b → All IsScalar (b64encode b)
    coded b h = ascii-IsScalar (b64encode b) (b64encode_ascii b h)

certificate_from_fields :
    (certificate : Certificate)
    → IsIssuable certificate
    → certificate_from_dict (certificate_fields certificate) ≡ ok certificate
unfolding certificate_from_dict certificate_fields item decode_value
certificate_from_fields certificate v =
    rw
      (
        b64decode-b64encode certificate.public_key v.public_key,
        b64decode-b64encode certificate.signature v.signature,
      )
      refl

-- A certificate whose text fields are strings without surrogates, and whose key and signature are bytes
-- below 256, can be sent, in a frame of its own identifier, and the receiver has the same certificate.
pub decode_certificate-encode_certificate :
    (json : JsonOps) (certificate : Certificate)
    → IsJson json
    → IsIssuable certificate
    → (message : CanMessage) × (encode_certificate json certificate ≡ ok message)
      × (message.arbitration_id ≡ certificate_id)
      × (decode_certificate json message ≡ ok certificate)
unfolding encode_certificate decode_certificate
decode_certificate-encode_certificate json certificate laws v =
    let fields = certificate_fields certificate in
    let chars = ascii-IsScalar (json.dumps fields) (laws.dumps_ascii fields) in
    let (payload, e) = encode_total (json.dumps fields) chars in
    (
      record { arbitration_id = certificate_id; content = payload },
      rw e,
      refl,
      rw
          (
            decode-encode (json.dumps fields) payload (scalar-IsChar _ chars) e,
            laws.loads-dumps fields (fields-IsKeyed certificate) (fields_text certificate v),
          )
          (certificate_from_fields certificate v),
    )

-- The identity of a battery and the ID of a session can be sent if they hold no surrogate, each
-- in a frame of its own identifier, and are read as they were sent.
pub text_frames :
    (t : Text) (session : Session)
    → All IsScalar t
    → All IsScalar session.session_id
    → ((m : CanMessage) × (encode_battery_id t ≡ ok m)
        × (m.arbitration_id ≡ auth_request_id)
        × (decode_battery_id m ≡ ok t))
      × ((m : CanMessage) × (encode_session_id session ≡ ok m)
          × (m.arbitration_id ≡ session_id_id)
          × (decode_session_id m ≡ ok session.session_id))
unfolding encode_battery_id decode_battery_id encode_session_id decode_session_id
text_frames t session ht hs =
    let (b, e) = encode_total t ht in
    let (c, f) = encode_total session.session_id hs in
    (
      (
        record { arbitration_id = auth_request_id; content = b },
        rw e,
        refl,
        decode-encode t b (scalar-IsChar t ht) e,
      ),
      (
        record { arbitration_id = session_id_id; content = c },
        rw f,
        refl,
        decode-encode session.session_id c (scalar-IsChar _ hs) f,
      ),
    )

-- The challenge, the signature and the result of the authentication are read as they were sent,
-- and so is the fixed request.
pub control_frames :
    (challenge signature : Bytes) (result : Bool)
    → (decode_nonce (encode_nonce challenge) ≡ challenge)
      × (decode_signature (encode_signature signature) ≡ signature)
      × (decode_auth_result (encode_auth_result result) ≡ ok result)
      × (decode_auth_request encode_auth_request ≡ ok (65 ∷ 85 ∷ 84 ∷ 72 ∷ []))
unfolding decode_nonce encode_nonce decode_signature encode_signature decode_auth_result
    encode_auth_result decode_auth_request encode_auth_request decode
control_frames challenge signature true = (refl, refl, refl, refl)
control_frames challenge signature false = (refl, refl, refl, refl)
