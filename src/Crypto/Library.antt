-- ===== src/Crypto/Library.antt =====
-- The package `cryptography`, with ECDSA over P-256 and SHA-256, as the program calls it: a parameter
-- of the model, with the documented behaviour that the proofs use.
use batt_lock.Base.{ℕ, ◌≡◌, ◌<◌, ◌^◌, Result, ok}
use batt_lock.Can.Message.{Bytes}

pub record CryptoOps (PrivateKey PublicKey : Type 0) : Type 0 where
  -- `ec.generate_private_key(ec.SECP256R1())`, from the randomness that the call draws.
  pub generate_private_key : ℕ → PrivateKey
  pub public_key : PrivateKey → PublicKey
  -- `private_key.sign(message, …)`, a DER signature. Signing is randomised: the first argument is
  -- the randomness that a call draws.
  pub sign : ℕ → PrivateKey → Bytes → Bytes
  -- `public_key.verify(signature, message, …)`, which raises InvalidSignature.
  pub verify : PublicKey → Bytes → Bytes → Result (Unit {0})
  -- PEM.
  pub public_bytes : PublicKey → Bytes
  pub load_pem_public_key : Bytes → Result PublicKey
  -- A DER signature and its two numbers.
  pub encode_dss_signature : ℕ → ℕ → Bytes
  pub decode_dss_signature : Bytes → Result (ℕ × ℕ)

pub record IsCrypto {PrivateKey PublicKey : Type 0} (ops : CryptoOps PrivateKey PublicKey)
    : Type 0 where
  -- A signature verifies under the public key that belongs to the private one.
  pub verify-sign :
      (coins : ℕ) (key : PrivateKey) (message : Bytes)
      → ops.verify (ops.public_key key) (ops.sign coins key message) message ≡ ok tt
  pub load-public_bytes :
      (key : PublicKey) → ops.load_pem_public_key (ops.public_bytes key) ≡ ok key
  pub decode_dss-encode_dss :
      (r s : ℕ) → ops.decode_dss_signature (ops.encode_dss_signature r s) ≡ ok (r, s)
  -- A signature that `sign` returns is the DER form of two numbers below the order of the curve,
  -- which has 256 bits.
  pub sign_dss :
      (coins : ℕ) (key : PrivateKey) (message : Bytes)
      → (r : ℕ) × (s : ℕ) × (r < 2 ^ 256)
        × (s < 2 ^ 256)
        × (ops.sign coins key message ≡ ops.encode_dss_signature r s)
