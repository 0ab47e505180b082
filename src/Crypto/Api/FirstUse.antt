-- ===== src/Crypto/Api/FirstUse.antt =====
-- Signing through `crypto/crypto_api.py` and checking the signature there.
use batt_lock.Base.{ℕ, ◌≡◌, ◌≢◌, refl, true, length, none, ok, arith}
use batt_lock.Can.Message.{Bytes}
use batt_lock.Crypto.Library.{CryptoOps, IsCrypto}
use batt_lock.Crypto.Signatures.{
  der_to_raw, generate_keypair, sign_message, sign_message_raw, serialize_public_key,
  deserialize_public_key,
}
use batt_lock.Crypto.Signatures.Raw.{verify_signature_raw-sign_message_raw}
use batt_lock.Crypto.Auth.{new_software_keys, sign_with}
use batt_lock.Crypto.Api.{
  CryptoApi, new_key_manager, get_key_manager, default_key_manager, normalized, sign_nonce,
  get_public_key_bytes, api_verify_signature,
}

normalized_der :
    {PrivateKey PublicKey : Type 0} (ops : CryptoOps PrivateKey PublicKey) (sig : Bytes)
    → length sig ≢ 64
    → normalized ops sig ≡ der_to_raw ops sig
unfolding normalized
normalized_der ops sig long = ground arith

module _ {PrivateKey PublicKey : Type 0} (ops : CryptoOps PrivateKey PublicKey)
    (laws : IsCrypto ops) where
  -- Where no key manager is configured, the first signature makes software keys and keeps them: whatever
  -- randomness is drawn, now or later, the public key that is asked for next belongs to the signature,
  -- which has 64 bytes and verifies under it, if the DER form of the signature does not happen to have 64
  -- bytes.
  pub api_verify_signature-sign_nonce :
      (key_coins coins later : ℕ) (nonce : Bytes) (api : CryptoApi PublicKey)
      → api.key_manager ≡ none
      → length (ops.sign coins (ops.generate_private_key key_coins) nonce) ≢ 64
      → (raw : Bytes) × (key_bytes : Bytes) × ((sign_nonce ops key_coins coins nonce none api).0
          ≡ ok raw)
        × ((get_public_key_bytes ops later none (sign_nonce ops key_coins coins nonce none api).1).0
            ≡ ok key_bytes)
        × (length raw ≡ 64)
        × (api_verify_signature ops nonce raw key_bytes ≡ ok true)
  unfolding sign_nonce get_public_key_bytes get_key_manager default_key_manager new_key_manager
      api_verify_signature new_software_keys generate_keypair sign_with sign_message
      sign_message_raw serialize_public_key deserialize_public_key
  api_verify_signature-sign_nonce key_coins coins later nonce api unset long =
      let key = ops.generate_private_key key_coins in
      let (raw, made, size, accepted) =
        verify_signature_raw-sign_message_raw ops laws coins key nonce in
      (
        raw,
        ops.public_bytes (ops.public_key key),
        rw (unset, normalized_der ops (ops.sign coins key nonce) long) made,
        rw unset refl,
        size,
        rw (laws.load-public_bytes (ops.public_key key), size) accepted,
      )
