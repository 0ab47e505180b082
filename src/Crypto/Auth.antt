-- ===== src/Crypto/Auth.antt =====
-- `crypto/auth/`, `crypto/crypto_utils/random_gen.py` and the parts of `crypto/models/battery.py` and
-- `crypto/keys` that sign with software keys. What `secrets` and the clock return is an argument.
use batt_lock.Base.{ℕ, ◌++◌, Bool, Option, none, Result, ◌>>=◌}
use batt_lock.Base.Texts.{Text}
use batt_lock.Base.Utf8.{encode}
use batt_lock.Base.Decimal.{decimal}
use batt_lock.Can.Message.{Bytes}
use batt_lock.Crypto.Library.{CryptoOps}
use batt_lock.Crypto.Models.{Certificate, Challenge, Session, BatteryIdentity}
use batt_lock.Crypto.Signatures.{
  generate_keypair, sign_message, verify_signature, deserialize_public_key,
}

-- The nonce is what `secrets.token_bytes(32)` returned.
unfoldable pub create_challenge : Bytes → ℕ → Challenge
create_challenge nonce timestamp = record { nonce = nonce; timestamp = timestamp }

-- The ID is what `secrets.token_hex(16)` returned.
unfoldable pub create_session : Text → Text → Session
create_session token battery_id = record { session_id = token; battery_id = battery_id }

module _ {PrivateKey PublicKey : Type 0} (ops : CryptoOps PrivateKey PublicKey) where
  unfoldable pub verify_challenge_response : Certificate → Challenge → Bytes → Result Bool
  verify_challenge_response certificate challenge signature = do
    public_key ← deserialize_public_key ops certificate.public_key
    stamp ← encode (decimal challenge.timestamp)
    verify_signature ops public_key (challenge.nonce ++ stamp) signature

  -- `SoftwareKeys`, the provider of a `KeyManager()`.
  pub record SoftwareKeys : Type 0 where
    pub private_key : PrivateKey
    pub public_key : PublicKey

  unfoldable pub new_software_keys : ℕ → SoftwareKeys
  unfolding generate_keypair
  new_software_keys coins =
      let (private_key, public_key) = generate_keypair ops coins in
      record { private_key = private_key; public_key = public_key }

  -- `SoftwareKeys.sign`
  unfoldable pub sign_with : ℕ → SoftwareKeys → Bytes → Bytes
  sign_with coins keys message = sign_message ops coins keys.private_key message

  pub record Battery : Type 0 where
    pub identity : BatteryIdentity
    pub keys : SoftwareKeys
    pub certificate : Option Certificate

  unfoldable pub new_battery : ℕ → Text → Text → Text → Battery
  new_battery coins battery_id serial_number manufacturer_id = record {
    identity = record {
      battery_id = battery_id;
      serial_number = serial_number;
      manufacturer_id = manufacturer_id;
    };
    keys = new_software_keys coins;
    certificate = none;
  }

  unfoldable pub battery_sign : ℕ → Battery → Bytes → Bytes
  battery_sign coins battery message = sign_with coins battery.keys message

  unfoldable pub battery_public_key : Battery → PublicKey
  battery_public_key battery = battery.keys.public_key
