-- ===== src/Provisioning.antt =====
-- `provisioning/provision.py`: the key of a chip gets a certificate, and the artifacts are saved. What is
-- printed is left out; the dates that are computed from the clock are arguments.
pub mod Issue
pub mod Steps
pub mod Saved
pub mod Accepted
pub mod Raised
pub mod Completes
use batt_lock.Base.{Bool, true, false, List, [], ◌∷◌, ◌++◌, Result, ok, err}
use batt_lock.Base.Texts.{Text}
use batt_lock.Base.Json.{Value}
use batt_lock.Base.Base64.{b64encode}
use batt_lock.Can.Message.{Bytes}
use batt_lock.Crypto.Library.{CryptoOps}
use batt_lock.Crypto.Models.{Certificate}
use batt_lock.Crypto.Signatures.{serialize_public_key}
use batt_lock.Crypto.Certificates.{RootCa, new_root_ca}
use batt_lock.Crypto.Chip.{SerialOps, Atecc608, new_chip, connect, genkey, chip_public_key, close}
use batt_lock.Provisioning.Issue.{Order, issue}

-- `cert_json`
pub record CertificateJson : Type 0 where
  pub battery_id : Value
  pub manufacturer_id : Value
  pub public_key_pem : Text
  pub issue_date : Value
  pub expiry_date : Value
  pub signature_b64 : Text

-- The files of the output directory, in the order in which they are written.
pub data Artifact : Type 0 where
  battery_public_key_pem root_ca_public_key_pem root_ca_private_key_pem : Bytes → Artifact
  battery_certificate_json : CertificateJson → Artifact

pub record Workshop (S : Type 0) : Type 0 where
  pub artifacts : List Artifact
  pub chip : Atecc608 S

-- Steps that change the workshop and may raise.
abbrev pub M : Type 0 → Type 0 → Type 0
M S A = Workshop S → Result A × Workshop S

infixl 5 ◌>>=◌ ◌>>◌
abbrev pub ◌>>=◌ : {S A B : Type 0} → M S A → (A → M S B) → M S B
◌>>=◌ m f w = let (r, w') = m w in elim r [ err e ↦ (err e, w') | ok a ↦ f a w' ]

abbrev pub ◌>>◌ : {S B : Type 0} → M S (Unit {0}) → M S B → M S B
m >> k = m >>= λ _. k

abbrev pub lift : {S A : Type 0} → Result A → M S A
lift r w = (r, w)

-- What the tool needs beside the chip and the crypto package: the PKCS8 PEM form of a private key, the
-- output directory, and its files. Each may raise, but for the first one.
pub record ToolOps (PrivateKey : Type 0) : Type 0 where
  pub private_bytes : PrivateKey → Bytes
  pub makedirs : Result (Unit {0})
  pub save : Artifact → Result (Unit {0})

abbrev pub on_chip : {S A : Type 0} → (Atecc608 S → Result A × Atecc608 S) → M S A
on_chip method w = let (r, chip) = method w.chip in (r, record w { chip = chip })

abbrev pub cert_json : Certificate → Text → CertificateJson
cert_json certificate pem = record {
  battery_id = certificate.battery_id;
  manufacturer_id = certificate.manufacturer_id;
  public_key_pem = pem;
  issue_date = certificate.issue_date;
  expiry_date = certificate.expiry_date;
  signature_b64 = b64encode certificate.signature;
}

module _ {S PrivateKey PublicKey : Type 0} (serial : SerialOps S)
    (ops : CryptoOps PrivateKey PublicKey) (from_encoded_point : Bytes → Result PublicKey)
    (tools : ToolOps PrivateKey) where
  -- A file that cannot be written to its end does not count.
  write : Artifact → M S (Unit {0})
  write artifact w = elim (tools.save artifact) [
    | err e ↦ (err e, w)
    | ok u ↦ (ok tt, record w { artifacts = w.artifacts ++ artifact ∷ [] })
  ]

  make_key : Bool → M S (Unit {0})
  make_key true = lift (ok tt)
  make_key false = on_chip (genkey serial)

  -- From `cert_json` on.
  save_artifacts : RootCa ops → Certificate → Text → M S (Unit {0})
  unfolding write
  save_artifacts root_ca certificate pem = do
    write (battery_certificate_json (cert_json certificate pem))
    write (root_ca_public_key_pem (serialize_public_key ops root_ca.public_key))
    write (root_ca_private_key_pem (tools.private_bytes root_ca.private_key))
    on_chip (close serial)

  certify_key : Order → Bytes → M S (Unit {0})
  unfolding save_artifacts
  certify_key order pub_pem = do
    let root_ca = new_root_ca ops order.ca_coins
    (certificate, pem) ← lift (issue ops order root_ca pub_pem)
    save_artifacts root_ca certificate pem

  -- From `pub_pem` on.
  certify : Order → PublicKey → M S (Unit {0})
  unfolding write certify_key
  certify order pub_key = do
    let pub_pem = serialize_public_key ops pub_key
    write (battery_public_key_pem pub_pem)
    certify_key order pub_pem

  -- Step 3.
  read_key : Order → M S (Unit {0})
  unfolding certify
  read_key order = do
    pub_key ← on_chip (chip_public_key serial from_encoded_point)
    certify order pub_key

  -- From the connection on.
  unfoldable pub use_chip : Order → M S (Unit {0})
  unfolding make_key read_key
  use_chip order = do
    on_chip (connect serial order.has_serial)
    make_key order.skip_genkey
    read_key order

  -- Nothing is in the output directory before.
  unfoldable pub provision : Order → Result (Unit {0}) × Workshop S
  unfolding use_chip
  provision order =
      let start : Workshop S = record { artifacts = []; chip = new_chip order.port 115200 } in
      let steps : M S (Unit {0}) = do lift tools.makedirs; use_chip order
      in steps start
