-- ===== src/Provisioning/Accepted.antt =====
-- A vehicle and a certificate that the provisioning tool has issued.
use batt_lock.Base.{◌≡◌, refl, ap, sym, true, some, Option, ok}
use mathlib.Core.Path.{subst}
use batt_lock.Base.Texts.{Text}
use batt_lock.Base.Json.{JsonOps, IsJson}
use batt_lock.Can.Message.{Bytes, CanMessage}
use batt_lock.Can.Codec.{decode_certificate}
use batt_lock.Can.Codec.RoundTrip.{IsIssuable, decode_certificate-encode_certificate}
use batt_lock.Can.Battery.{send_certificate}
use batt_lock.Can.Vehicle.{VehicleNode, receive_and_verify_certificate}
use batt_lock.Crypto.Library.{CryptoOps}
use batt_lock.Crypto.Models.{Certificate}
use batt_lock.Crypto.Certificates.{RootCa, verify_certificate}
use batt_lock.Provisioning.Issue.{Order, issue}
use batt_lock.Provisioning.Steps.{issue_sound}

module _ {PrivateKey PublicKey : Type 0} (ops : CryptoOps PrivateKey PublicKey)
    (json : JsonOps) where
  received :
      (order : Order) (m : CanMessage) (v : VehicleNode PublicKey) (certificate : Certificate)
      (key : PublicKey)
      → decode_certificate json m ≡ ok certificate
      → v.root_ca_public_key ≡ some key
      → verify_certificate ops order.now certificate key ≡ ok true
      → receive_and_verify_certificate ops json order.now m v
        ≡ (ok true, record v { stored_certificate = some certificate })
  unfolding receive_and_verify_certificate
  received order m v certificate key d trusted accepted =
      let trusting : record v { root_ca_public_key = some key } ≡ v =
        ap (λ (o : Option PublicKey). record v { root_ca_public_key = o }) (sym trusted) in
      subst
        (λ (u : VehicleNode PublicKey).
          receive_and_verify_certificate ops json order.now m u
          ≡ (ok true, record u { stored_certificate = some certificate }))
        trusting (rw (receive_and_verify_certificate, d, accepted) refl)

  -- A certificate that the tool has issued can be sent to a vehicle that trusts the root CA which the tool
  -- has made, and the vehicle accepts it and keeps it, if it can be written as JSON and the vehicle's clock
  -- stands as in the run of the tool.
  pub issued_accepted :
      (laws : IsJson json) (order : Order) (root_ca : RootCa ops) (pub_pem : Bytes)
      (certificate : Certificate) (pem : Text) (v : VehicleNode PublicKey)
      → issue ops order root_ca pub_pem ≡ ok (certificate, pem)
      → IsIssuable certificate
      → v.root_ca_public_key ≡ some root_ca.public_key
      → (m : CanMessage) × (send_certificate json certificate ≡ ok m)
        × (receive_and_verify_certificate ops json order.now m v
            ≡ (ok true, record v { stored_certificate = some certificate }))
  unfolding send_certificate
  issued_accepted laws order root_ca pub_pem certificate pem v issued issuable trusted =
      let (_, accepted) = issue_sound ops order root_ca pub_pem certificate pem issued in
      let (m, e, _, d) = decode_certificate-encode_certificate json certificate laws issuable in
      (m, e, received order m v certificate root_ca.public_key d trusted accepted)
