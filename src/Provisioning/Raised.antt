-- ===== src/Provisioning/Raised.antt =====
-- What a run of the provisioning tool that raises an exception leaves in its directory.
use batt_lock.Base.{ℕ, ◌≡◌, ◌⊎◌, inl, inr, true, List, [], ◌∷◌, take, Error, Result, ok, err}
use batt_lock.Base.Texts.{Text}
use batt_lock.Can.Message.{Bytes}
use batt_lock.Crypto.Library.{CryptoOps}
use batt_lock.Crypto.Models.{Certificate}
use batt_lock.Crypto.Signatures.{serialize_public_key}
use batt_lock.Crypto.Certificates.{new_root_ca, verify_certificate}
use batt_lock.Crypto.Chip.{SerialOps}
use batt_lock.Provisioning.Issue.{Order}
use batt_lock.Provisioning.Steps.{
  IsLeft, nothing, key_only, certified, files, issue_sound, provision-IsLeft,
}
use batt_lock.Provisioning.{Artifact, battery_public_key_pem, Workshop, ToolOps, provision}

module _ {S PrivateKey PublicKey : Type 0} (serial : SerialOps S)
    (ops : CryptoOps PrivateKey PublicKey) (from_encoded_point : Bytes → Result PublicKey)
    (tools : ToolOps PrivateKey) where
  -- At most the battery's public key, or a first part of the four files, in their order, the certificate of
  -- which was issued for the public key and verifies under the root CA's.
  abbrev pub IsConsistent : Order → List Artifact → Type 0
  IsConsistent order artifacts =
      (artifacts ≡ [])
      ⊎ ((pem : Bytes) × (artifacts ≡ battery_public_key_pem pem ∷ []))
      ⊎ ((n : ℕ) × (key : PublicKey) × (certificate : Certificate) × (pem : Text) × (artifacts
            ≡ take n (files ops tools order key certificate pem))
          × (certificate.public_key ≡ serialize_public_key ops key)
          × (verify_certificate ops order.now certificate
                (new_root_ca ops order.ca_coins).public_key
              ≡ ok true))

  left-IsConsistent :
      (order : Order) (r : Result (Unit {0}) × Workshop S)
      → IsLeft ops tools order r
      → IsConsistent order r.1.artifacts
  left-IsConsistent order r (nothing e h a) = inl a
  left-IsConsistent order r (key_only e key h a) = inr (inl (serialize_public_key ops key, a))
  left-IsConsistent order r (certified key certificate pem issued p) =
      let (same, accepted) = issue_sound ops order _ _ certificate pem issued in
      inr (inr (p.n, key, certificate, pem, p.first, same, accepted))

  -- A run that raises an exception, wherever it does, in the chip, in the certificate or at a file that
  -- cannot be written to its end, has written no other file to its end than the battery's public key, or
  -- else a first part of the four files in their order; a certificate is among them only if it holds that
  -- public key and verifies under the public key of the root CA of this run.
  pub provision_raised :
      (order : Order) (e : Error)
      → (provision serial ops from_encoded_point tools order).0 ≡ err e
      → IsConsistent order (provision serial ops from_encoded_point tools order).1.artifacts
  provision_raised order e h =
      left-IsConsistent order (provision serial ops from_encoded_point tools order)
        (provision-IsLeft ops tools serial from_encoded_point order)
