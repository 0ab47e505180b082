-- ===== src/Crypto/Certificates.antt =====
-- `crypto/certs/certificate.py` and `root_ca.py`.
pub mod Encoding
pub mod Verification
use batt_lock.Base.{
  ℕ, Bool, true, false, if◌then◌else◌, ◌++◌, Result, ok, err, ◌>>=◌, type_error, attribute_error,
}
use batt_lock.Base.Texts.{Text}
use batt_lock.Base.Utf8.{encode}
use batt_lock.Base.Json.{Value, text, other}
use batt_lock.Base.Dates.{Moment, strptime, is_past}
use batt_lock.Can.Message.{Bytes}
use batt_lock.Crypto.Library.{CryptoOps}
use batt_lock.Crypto.Models.{Certificate}
use batt_lock.Crypto.Signatures.{returns_false}

-- `field.encode()`, of a str or of something that has no such method.
unfoldable pub encode_value : Value → Result Bytes
encode_value (text t) = encode t
encode_value other = err attribute_error

-- The bytes that are signed.
unfoldable pub certificate_data : Value → Value → Bytes → Value → Value → Result Bytes
unfolding encode_value
certificate_data battery_id manufacturer_id public_key issue_date expiry_date = do
  b ← encode_value battery_id
  m ← encode_value manufacturer_id
  i ← encode_value issue_date
  e ← encode_value expiry_date
  ok (b ++ m ++ public_key ++ i ++ e)

unfoldable pub is_certificate_expired : Moment → Certificate → Result Bool
is_certificate_expired now certificate = elim certificate.expiry_date [
  | text t ↦ do expiry_date ← strptime t; ok (is_past now expiry_date)
  | other ↦ err type_error
]

module _ {PrivateKey PublicKey : Type 0} (ops : CryptoOps PrivateKey PublicKey) where
  pub record RootCa : Type 0 where
    pub private_key : PrivateKey
    pub public_key : PublicKey

  unfoldable pub new_root_ca : ℕ → RootCa
  new_root_ca coins =
      let private_key = ops.generate_private_key coins in
      record { private_key = private_key; public_key = ops.public_key private_key }

  -- The first argument is the randomness of the signature.
  unfoldable pub create_certificate :
      ℕ → RootCa → Text → Text → Bytes → Text → Text → Result Certificate
  create_certificate coins root_ca battery_id manufacturer_id battery_public_key issue_date
        expiry_date =
      do
        data_bytes ←
            certificate_data (text battery_id) (text manufacturer_id) battery_public_key
              (text issue_date) (text expiry_date)
        ok (record {
          battery_id = text battery_id;
          manufacturer_id = text manufacturer_id;
          public_key = battery_public_key;
          issue_date = text issue_date;
          expiry_date = text expiry_date;
          signature = ops.sign coins root_ca.private_key data_bytes;
        })

  unfoldable pub verify_certificate : Moment → Certificate → PublicKey → Result Bool
  verify_certificate now certificate manufacturer_public_key = do
    expired ← is_certificate_expired now certificate
    let checked = do
      data_bytes ←
          certificate_data certificate.battery_id certificate.manufacturer_id certificate.public_key
            certificate.issue_date certificate.expiry_date
      returns_false (ops.verify manufacturer_public_key certificate.signature data_bytes)
    if expired then ok false else checked
