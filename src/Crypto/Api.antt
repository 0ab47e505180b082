-- ===== src/Crypto/Api.antt =====
-- `crypto/crypto_api.py` and `crypto/keys/key_manager.py`: the interface of the crypto package, with the
-- state of its module.
pub mod FirstUse
use batt_lock.Base.{
  ℕ, ◌==◌, Bool, if◌then◌else◌, length, Option, none, some, Result, ok, err, ◌>>=◌, runtime_error,
  no_root_ca,
}
use batt_lock.Base.Int.{ℤ}
use batt_lock.Base.Dates.{Moment}
use batt_lock.Can.Message.{Bytes}
use batt_lock.Crypto.Library.{CryptoOps}
use batt_lock.Crypto.Models.{Certificate}
use batt_lock.Crypto.Signatures.{
  raw_sig_len, der_to_raw, verify_signature, verify_signature_raw, serialize_public_key,
  deserialize_public_key,
}
use batt_lock.Crypto.Certificates.{verify_certificate}
use batt_lock.Crypto.Auth.{new_software_keys, sign_with}
use batt_lock.Crypto.Counters.{ReplayProtection, new_replay, validate}

-- `KeyManager`, by what its `sign` and `get_public_key` pass on to the provider. A call of `sign` draws
-- randomness; a provider that talks to a device may raise.
pub record KeyManager (PublicKey : Type 0) : Type 0 where
  pub sign : ℕ → Bytes → Result Bytes
  pub get_public_key : Result PublicKey

-- The variables of the module.
pub record CryptoApi (PublicKey : Type 0) : Type 0 where
  pub key_manager : Option (KeyManager PublicKey)
  pub root_ca_public_key : Option PublicKey
  pub replay : ReplayProtection

-- What `set_root_ca_public_key` takes.
pub data KeyArgument (PublicKey : Type 0) : Type 0 where
  key_object : PublicKey → KeyArgument PublicKey
  pem : Bytes → KeyArgument PublicKey

module _ {PublicKey : Type 0} where
  unfoldable pub configure_key_manager :
      KeyManager PublicKey → CryptoApi PublicKey → CryptoApi PublicKey
  configure_key_manager key_manager api = record api { key_manager = some key_manager }

  unfoldable pub api_check_counter : ℤ → CryptoApi PublicKey → Bool × CryptoApi PublicKey
  api_check_counter counter api =
      let (fresh, replay) = validate counter api.replay in (fresh, record api { replay = replay })

  unfoldable pub reset_counter : CryptoApi PublicKey → CryptoApi PublicKey
  reset_counter api = record api { replay = new_replay }

  -- `key_manager or _get_key_manager()`, where `default` is what the second returns.
  abbrev chosen :
      Option (KeyManager PublicKey)
      → KeyManager PublicKey × CryptoApi PublicKey
      → CryptoApi PublicKey
      → KeyManager PublicKey × CryptoApi PublicKey
  chosen (some key_manager) default api = (key_manager, api)
  chosen none default api = default

module _ {PrivateKey PublicKey : Type 0} (ops : CryptoOps PrivateKey PublicKey) where
  -- `KeyManager(use_hardware=False)`, with the randomness that its keys draw.
  unfoldable pub new_key_manager : ℕ → KeyManager PublicKey
  new_key_manager coins =
      let provider = new_software_keys ops coins in
      record {
        sign = λ drawn data_bytes. ok (sign_with ops drawn provider data_bytes);
        get_public_key = ok provider.public_key;
      }

  unfoldable pub set_root_ca_public_key :
      KeyArgument PublicKey → CryptoApi PublicKey → Result (CryptoApi PublicKey)
  set_root_ca_public_key (key_object public_key) api =
      ok (record api { root_ca_public_key = some public_key })
  set_root_ca_public_key (pem public_key_bytes) api = do
    public_key ← deserialize_public_key ops public_key_bytes
    ok (record api { root_ca_public_key = some public_key })

  -- The key manager that is configured, or software keys that are made on the first use and kept.
  default_key_manager :
      ℕ
      → Option (KeyManager PublicKey)
      → CryptoApi PublicKey
      → KeyManager PublicKey × CryptoApi PublicKey
  default_key_manager coins (some key_manager) api = (key_manager, api)
  default_key_manager coins none api =
      let made = new_key_manager coins in (made, record api { key_manager = some made })

  unfoldable pub get_key_manager :
      ℕ → CryptoApi PublicKey → KeyManager PublicKey × CryptoApi PublicKey
  unfolding default_key_manager
  get_key_manager coins api = default_key_manager coins api.key_manager api

  -- A signature of 64 bytes is taken for a raw one.
  unfoldable pub normalized : Bytes → Result Bytes
  normalized sig = if length sig == raw_sig_len then ok sig else der_to_raw ops sig

  -- The randomness of keys that are made here, and that of the signature.
  unfoldable pub sign_nonce :
      ℕ
      → ℕ
      → Bytes
      → Option (KeyManager PublicKey)
      → CryptoApi PublicKey
      → Result Bytes × CryptoApi PublicKey
  sign_nonce key_coins coins nonce key_manager api =
      let (km, api₁) = chosen key_manager (get_key_manager key_coins api) api in
      (km.sign coins nonce >>= normalized, api₁)

  unfoldable pub get_public_key_bytes :
      ℕ → Option (KeyManager PublicKey) → CryptoApi PublicKey → Result Bytes × CryptoApi PublicKey
  get_public_key_bytes key_coins key_manager api =
      let (km, api₁) = chosen key_manager (get_key_manager key_coins api) api in
      (km.get_public_key >>= λ key. ok (serialize_public_key ops key), api₁)

  unfoldable pub api_verify_signature : Bytes → Bytes → Bytes → Result Bool
  api_verify_signature nonce signature public_key_bytes = do
    public_key ← deserialize_public_key ops public_key_bytes
    if length signature == raw_sig_len
        then verify_signature_raw ops public_key nonce signature
        else verify_signature ops public_key nonce signature

  unfoldable pub api_verify_certificate : Moment → Certificate → CryptoApi PublicKey → Result Bool
  api_verify_certificate now certificate api = elim api.root_ca_public_key [
    | none ↦ err (runtime_error no_root_ca)
    | some public_key ↦ verify_certificate ops now certificate public_key
  ]
