-- ===== src/Provisioning/Saved.antt =====
-- What a run of the provisioning tool that ends without an exception leaves in its directory.
use batt_lock.Base.{◌≡◌, refl, true, false, [], ◌∷◌, none, Result, ok}
use mathlib.Core.Path.{subst}
use batt_lock.Base.Texts.{Text}
use batt_lock.Can.Message.{Bytes}
use batt_lock.Crypto.Library.{CryptoOps}
use batt_lock.Crypto.Models.{Certificate}
use batt_lock.Crypto.Signatures.{serialize_public_key}
use batt_lock.Crypto.Certificates.{new_root_ca, verify_certificate}
use batt_lock.Crypto.Chip.{SerialOps}
use batt_lock.Provisioning.Issue.{Order, issue}
use batt_lock.Provisioning.Steps.{
  IsLeft, nothing, key_only, certified, issue_sound, provision-IsLeft,
}
use batt_lock.Provisioning.{
  battery_public_key_pem, battery_certificate_json, root_ca_public_key_pem, root_ca_private_key_pem,
  Workshop, cert_json, ToolOps, provision,
}

module _ {PrivateKey PublicKey : Type 0} (ops : CryptoOps PrivateKey PublicKey) where
  module _ {S : Type 0} (serial : SerialOps S) (from_encoded_point : Bytes → Result PublicKey)
      (tools : ToolOps PrivateKey) where
    -- What a run that ends without an exception has saved.
    pub record IsSaved (order : Order) (w : Workshop S) : Type 0 where
      pub certificate : Certificate
      pub key : PublicKey
      pub pem : Text
      pub artifacts :
          w.artifacts
          ≡ battery_public_key_pem (serialize_public_key ops key)
            ∷ battery_certificate_json (cert_json certificate pem)
            ∷ root_ca_public_key_pem
                (serialize_public_key ops (new_root_ca ops order.ca_coins).public_key)
            ∷ root_ca_private_key_pem
                (tools.private_bytes (new_root_ca ops order.ca_coins).private_key)
            ∷ []
      pub issued :
          issue ops order (new_root_ca ops order.ca_coins) (serialize_public_key ops key)
          ≡ ok (certificate, pem)
      pub certified : certificate.public_key ≡ serialize_public_key ops key
      pub verified :
          verify_certificate ops order.now certificate (new_root_ca ops order.ca_coins).public_key
          ≡ ok true
      pub closed : (w.chip.connected ≡ false) × (w.chip.ser ≡ none)

    left-IsSaved :
        (order : Order) (w : Workshop S) → IsLeft ops tools order (ok tt, w) → IsSaved order w
    left-IsSaved order w (nothing e h a) = cc
    left-IsSaved order w (key_only e key h a) = cc
    left-IsSaved order w (certified key certificate pem issued p) =
        let (same, accepted) = issue_sound ops order _ _ certificate pem issued in
        record {
          certificate = certificate;
          key = key;
          pem = pem;
          artifacts = (p.whole refl).0;
          issued = issued;
          certified = same;
          verified = accepted;
          closed = (p.whole refl).1;
        }

    -- A run of the tool that raises nothing, whatever the chip answers, has written its four files in this
    -- order and closed the chip, and the certificate among them holds the public key that is among them and
    -- verifies under the root CA's public key that is among them.
    pub provision-IsSaved :
        (order : Order) (w : Workshop S)
        → provision serial ops from_encoded_point tools order ≡ (ok tt, w)
        → IsSaved order w
    provision-IsSaved order w h = left-IsSaved order w (
        subst (IsLeft ops tools order) h
          (provision-IsLeft ops tools serial from_encoded_point order))
