-- ===== src/Crypto/Signatures.antt =====
-- `crypto/crypto_utils/signatures.py` and `key_serialization.py`.
pub mod Raw
use batt_lock.Base.{
  ℕ, ◌==◌, not, Bool, true, false, List, ◌++◌, length, take, drop, Result, ok, err, ◌>>=◌, ◌>>◌,
  raise_if, value_error, invalid_signature, raw_signature_length,
}
use batt_lock.Base.BigEndian.{to_bytes, from_bytes}
use batt_lock.Can.Message.{Bytes}
use batt_lock.Crypto.Library.{CryptoOps}

abbrev pub raw_sig_len : ℕ
raw_sig_len = 64

abbrev pub curve_scalar_len : ℕ
curve_scalar_len = 32

-- `try: … return True` with `except InvalidSignature: return False`.
unfoldable pub returns_false : Result (Unit {0}) → Result Bool
returns_false (ok u) = ok true
returns_false (err invalid_signature) = ok false
returns_false (err e) = err e

module _ {PrivateKey PublicKey : Type 0} (ops : CryptoOps PrivateKey PublicKey) where
  unfoldable pub generate_keypair : ℕ → PrivateKey × PublicKey
  generate_keypair coins =
      let private_key = ops.generate_private_key coins in (private_key, ops.public_key private_key)

  unfoldable pub sign_message : ℕ → PrivateKey → Bytes → Bytes
  sign_message coins private_key message = ops.sign coins private_key message

  unfoldable pub verify_signature : PublicKey → Bytes → Bytes → Result Bool
  verify_signature public_key message signature =
      returns_false (ops.verify public_key signature message)

  unfoldable pub der_to_raw : Bytes → Result Bytes
  der_to_raw der_signature = do
    (r, s) ← ops.decode_dss_signature der_signature
    r_bytes ← to_bytes r curve_scalar_len
    s_bytes ← to_bytes s curve_scalar_len
    ok (r_bytes ++ s_bytes)

  unfoldable pub raw_to_der : Bytes → Result Bytes
  raw_to_der raw_signature = do
    raise_if (not (length raw_signature == raw_sig_len)) (value_error raw_signature_length)
    let r = from_bytes (take curve_scalar_len raw_signature)
    let s = from_bytes (drop curve_scalar_len raw_signature)
    ok (ops.encode_dss_signature r s)

  unfoldable pub sign_message_raw : ℕ → PrivateKey → Bytes → Result Bytes
  sign_message_raw coins private_key message = der_to_raw (sign_message coins private_key message)

  -- The rest of `verify_signature_raw`, with what `raw_to_der` returned or raised.
  verify_converted : PublicKey → Bytes → Result Bytes → Result Bool
  verify_converted public_key message (ok der_signature) =
      verify_signature public_key message der_signature
  verify_converted public_key message (err (value_error reason)) = ok false
  verify_converted public_key message (err e) = err e

  unfoldable pub verify_signature_raw : PublicKey → Bytes → Bytes → Result Bool
  unfolding verify_converted
  verify_signature_raw public_key message raw_signature =
      verify_converted public_key message (raw_to_der raw_signature)

  unfoldable pub serialize_public_key : PublicKey → Bytes
  serialize_public_key public_key = ops.public_bytes public_key

  unfoldable pub deserialize_public_key : Bytes → Result PublicKey
  deserialize_public_key public_key_bytes = ops.load_pem_public_key public_key_bytes
