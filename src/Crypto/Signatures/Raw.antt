-- ===== src/Crypto/Signatures/Raw.antt =====
-- The raw form of a signature, as it travels on the bus, and the DER form that the library checks.
use batt_lock.Base.{
  ℕ, ◌≡◌, ◌≢◌, ◌<◌, ◌^◌, true, false, ◌++◌, length, take, drop, take-append, drop-append,
  length-append, ok, arith,
}
use batt_lock.Base.BigEndian.{low_bytes, length-low_bytes, from_bytes-to_bytes}
use batt_lock.Can.Message.{Bytes}
use batt_lock.Crypto.Library.{CryptoOps, IsCrypto}
use batt_lock.Crypto.Signatures.{
  der_to_raw, raw_to_der, sign_message, sign_message_raw, verify_signature, verify_signature_raw,
  verify_converted, returns_false,
}

module _ {PrivateKey PublicKey : Type 0} (ops : CryptoOps PrivateKey PublicKey)
    (laws : IsCrypto ops) where
  -- A DER signature of two numbers of 256 bits becomes 64 bytes, and those become the same DER
  -- signature again.
  pub raw_to_der-der_to_raw :
      (r s : ℕ)
      → r < 2 ^ 256
      → s < 2 ^ 256
      → (raw : Bytes) × (der_to_raw ops (ops.encode_dss_signature r s) ≡ ok raw)
        × (length raw ≡ 64)
        × (raw_to_der ops raw ≡ ok (ops.encode_dss_signature r s))
  unfolding der_to_raw raw_to_der
  raw_to_der-der_to_raw r s hr hs =
      let (er, fr) = from_bytes-to_bytes 32 r hr in
      let (es, fs) = from_bytes-to_bytes 32 s hs in
      let nr = length-low_bytes 32 r in
      let ns = length-low_bytes 32 s in
      let size : length (low_bytes 32 r ++ low_bytes 32 s) ≡ 64 =
        omega (arith, length-append (low_bytes 32 r) (low_bytes 32 s), nr, ns) in
      let first : take 32 (low_bytes 32 r ++ low_bytes 32 s) ≡ low_bytes 32 r =
        rw nr at (take-append {A = ℕ} (low_bytes 32 r) (low_bytes 32 s)) in
      let second : drop 32 (low_bytes 32 r ++ low_bytes 32 s) ≡ low_bytes 32 s =
        rw nr at (drop-append {A = ℕ} (low_bytes 32 r) (low_bytes 32 s)) in
      (
        low_bytes 32 r ++ low_bytes 32 s,
        rw (laws.decode_dss-encode_dss r s, er, es),
        size,
        rw (size, first, second, fr, fs),
      )

  -- Whatever randomness a signature drew, its raw form verifies under the signer's public key.
  pub verify_signature_raw-sign_message_raw :
      (coins : ℕ) (key : PrivateKey) (message : Bytes)
      → (raw : Bytes) × (sign_message_raw ops coins key message ≡ ok raw)
        × (length raw ≡ 64)
        × (verify_signature_raw ops (ops.public_key key) message raw ≡ ok true)
  unfolding sign_message_raw sign_message verify_signature_raw verify_converted verify_signature
      returns_false
  verify_signature_raw-sign_message_raw coins key message =
      let (r, s, hr, hs, e) = laws.sign_dss coins key message in
      let (raw, to_raw, size, back) = raw_to_der-der_to_raw r s hr hs in
      (raw, rw (e, to_raw), size, rw (back, ← e, laws.verify-sign coins key message))

module _ {PrivateKey PublicKey : Type 0} (ops : CryptoOps PrivateKey PublicKey) where
  -- A signature of any other length is rejected, without an exception.
  verify_signature_raw-length :
      (key : PublicKey) (message raw : Bytes)
      → length raw ≢ 64
      → verify_signature_raw ops key message raw ≡ ok false
  unfolding verify_signature_raw verify_converted raw_to_der
  verify_signature_raw-length key message raw h = ground arith
