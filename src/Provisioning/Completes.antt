-- ===== src/Provisioning/Completes.antt =====
-- A run of the provisioning tool over a bridge that answers as documented.
use batt_lock.Base.{
  ℕ, ◌≡◌, refl, ap, sym, ◌∙◌, Bool, true, false, List, [], ◌∷◌, ◌++◌, Result, ok, err,
}
use mathlib.Core.Path.{subst}
use batt_lock.Base.Texts.{Text}
use batt_lock.Base.Utf8.{decode}
use batt_lock.Base.Dates.{Date, strptime, is_past}
use batt_lock.Can.Message.{Bytes}
use batt_lock.Crypto.Library.{CryptoOps, IsCrypto}
use batt_lock.Crypto.Models.{Certificate}
use batt_lock.Crypto.Signatures.{serialize_public_key}
use batt_lock.Crypto.Certificates.{RootCa, new_root_ca, create_certificate}
use batt_lock.Crypto.Certificates.Verification.{verify_certificate-create_certificate}
use batt_lock.Crypto.Chip.{
  SerialOps, Atecc608, new_chip, connect, genkey, chip_public_key, close, close_ser,
}
use batt_lock.Crypto.Chip.Bridge.{
  IsBridge, at, connect_bridge, genkey_bridge, chip_public_key_bridge,
}
use batt_lock.Provisioning.Issue.{Order, issue}
use batt_lock.Provisioning.{
  Artifact, battery_public_key_pem, battery_certificate_json, root_ca_public_key_pem,
  root_ca_private_key_pem, Workshop, M, ◌>>=◌, lift, on_chip, cert_json, ToolOps, write, make_key,
  save_artifacts, certify_key, certify, read_key, use_chip, provision,
}

abbrev Ends : {S : Type 0} → Result (Unit {0}) × Workshop S → Type 0
Ends {S} r = (w : Workshop S) × (r ≡ (ok tt, w))

on_chip-Ends :
    {S A : Type 0} {x : A} (method : Atecc608 S → Result A × Atecc608 S) (next : A → M S (Unit {0}))
    (chip chip' : Atecc608 S)
    → method chip ≡ (ok x, chip')
    → Ends (next x (record { artifacts = []; chip = chip' }))
    → Ends ((on_chip method >>= next) (record { artifacts = []; chip = chip }))
on_chip-Ends {S} {A} method next chip chip' e ends =
    let run : Result A × Atecc608 S → Result (Unit {0}) × Workshop S =
      λ r. (lift r.0 >>= next) (record { artifacts = []; chip = r.1 }) in
    subst (λ r. Ends (run r)) (sym e) ends

module _ {S PrivateKey PublicKey : Type 0} (serial : SerialOps S)
    (ops : CryptoOps PrivateKey PublicKey) (laws : IsCrypto ops)
    (from_encoded_point : Bytes → Result PublicKey) (tools : ToolOps PrivateKey) {key : PublicKey}
    {nonce : Bytes} (bridge : IsBridge serial ops from_encoded_point key nonce)
    (made : tools.makedirs ≡ ok tt) (saves : (artifact : Artifact) → tools.save artifact ≡ ok tt)
    (closes : (s : S) → serial.close_port s ≡ ok tt) where
  issue_completes :
      (order : Order) (certificate : Certificate) (date : Date) (pem : Text)
      → create_certificate ops order.certificate_coins
          (new_root_ca ops order.ca_coins)
          order.battery_id
          order.manufacturer_id
          (ops.public_bytes key)
          order.issue_date
          order.expiry_date
        ≡ ok certificate
      → strptime order.expiry_date ≡ ok date
      → is_past order.now date ≡ false
      → decode (ops.public_bytes key) ≡ ok pem
      → issue ops order (new_root_ca ops order.ca_coins) (ops.public_bytes key)
        ≡ ok (certificate, pem)
  unfolding issue
  issue_completes order certificate date pem created read current text =
      let accepted =
        verify_certificate-create_certificate ops laws order.now order.ca_coins
          order.certificate_coins order.battery_id order.manufacturer_id (ops.public_bytes key)
          order.issue_date order.expiry_date date certificate created read current in
      rw (created, accepted, text) refl

  write-Ends :
      (artifact : Artifact) (next : Unit {0} → M S (Unit {0})) (w : Workshop S)
      → Ends (next tt (record w { artifacts = w.artifacts ++ artifact ∷ [] }))
      → Ends ((write serial ops from_encoded_point tools artifact >>= next) w)
  unfolding write
  write-Ends artifact next w ends =
      let run : Result (Unit {0}) → Result (Unit {0}) × Workshop S = λ r.
        ((λ (w : Workshop S). elim r as (λ _. Result (Unit {0}) × Workshop S) [
          | err e ↦ (err e, w)
          | ok u ↦ (ok tt, record w { artifacts = w.artifacts ++ artifact ∷ [] })
        ])
            >>= next)
          w in
      subst (λ r. Ends (run r)) (sym (saves artifact)) ends

  -- The chip is connected when it is closed.
  close-Ends :
      (artifacts : List Artifact) (port : Text) (baud : ℕ) (s : S)
      → Ends (
          on_chip (close serial) (record {
            artifacts = artifacts;
            chip = at serial ops from_encoded_point bridge port baud s;
          }))
  unfolding close close_ser
  close-Ends artifacts port baud s = rw (closes s) (_, refl)

  save_artifacts-Ends :
      (root_ca : RootCa ops) (certificate : Certificate) (pem : Text) (artifacts : List Artifact)
      (port : Text) (baud : ℕ) (s : S)
      → Ends (
          save_artifacts serial ops from_encoded_point tools root_ca certificate pem (record {
            artifacts = artifacts;
            chip = at serial ops from_encoded_point bridge port baud s;
          }))
  unfolding save_artifacts
  save_artifacts-Ends root_ca certificate pem artifacts port baud s =
      let public_pem = root_ca_public_key_pem (serialize_public_key ops root_ca.public_key) in
      let private_pem = root_ca_private_key_pem (tools.private_bytes root_ca.private_key) in
      let write_it = write serial ops from_encoded_point tools in
      write-Ends (battery_certificate_json (cert_json certificate pem))
        (λ _. write_it public_pem >>= λ _. write_it private_pem >>= λ _. on_chip (close serial)) _
        (write-Ends public_pem (λ _. write_it private_pem >>= λ _. on_chip (close serial)) _
          (write-Ends private_pem (λ _. on_chip (close serial)) _ (close-Ends _ port baud s)))

  certify_key-Ends :
      (order : Order) (certificate : Certificate) (pem port : Text) (baud : ℕ) (s : S)
      (artifacts : List Artifact)
      → issue ops order (new_root_ca ops order.ca_coins) (ops.public_bytes key)
        ≡ ok (certificate, pem)
      → Ends (
          certify_key serial ops from_encoded_point tools order (ops.public_bytes key) (record {
            artifacts = artifacts;
            chip = at serial ops from_encoded_point bridge port baud s;
          }))
  unfolding certify_key
  certify_key-Ends order certificate pem port baud s artifacts issued =
      rw issued
        (save_artifacts-Ends (new_root_ca ops order.ca_coins) certificate pem artifacts port baud s)

  certify-Ends :
      (order : Order) (certificate : Certificate) (pem port : Text) (baud : ℕ) (s : S)
      → issue ops order (new_root_ca ops order.ca_coins) (ops.public_bytes key)
        ≡ ok (certificate, pem)
      → Ends (
          certify serial ops from_encoded_point tools order key
            (record { artifacts = []; chip = at serial ops from_encoded_point bridge port baud s }))
  unfolding certify serialize_public_key
  certify-Ends order certificate pem port baud s issued =
      write-Ends (battery_public_key_pem (ops.public_bytes key))
        (λ _. certify_key serial ops from_encoded_point tools order (ops.public_bytes key)) _
        (certify_key-Ends order certificate pem port baud s _ issued)

  read_key-Ends :
      (order : Order) (certificate : Certificate) (pem port : Text) (baud : ℕ) (s : S)
      → issue ops order (new_root_ca ops order.ca_coins) (ops.public_bytes key)
        ≡ ok (certificate, pem)
      → Ends (
          read_key serial ops from_encoded_point tools order
            (record { artifacts = []; chip = at serial ops from_encoded_point bridge port baud s }))
  unfolding read_key
  read_key-Ends order certificate pem port baud s issued =
      let (s', shown) = chip_public_key_bridge serial ops from_encoded_point bridge port baud s in
      on_chip-Ends (chip_public_key serial from_encoded_point)
        (certify serial ops from_encoded_point tools order) _ _ shown
        (certify-Ends order certificate pem port baud s' issued)

  make_key-Ends :
      (order : Order) (skip : Bool) (certificate : Certificate) (pem port : Text) (baud : ℕ) (s : S)
      → issue ops order (new_root_ca ops order.ca_coins) (ops.public_bytes key)
        ≡ ok (certificate, pem)
      → Ends (
          (make_key serial ops from_encoded_point tools skip >>= λ _.
          read_key serial ops from_encoded_point tools order)
            (record { artifacts = []; chip = at serial ops from_encoded_point bridge port baud s }))
  unfolding make_key
  make_key-Ends order true certificate pem port baud s issued =
      read_key-Ends order certificate pem port baud s issued
  make_key-Ends order false certificate pem port baud s issued =
      let (s', generated) = genkey_bridge serial ops from_encoded_point bridge port baud s in
      on_chip-Ends (genkey serial) (λ _. read_key serial ops from_encoded_point tools order) _ _
        generated (read_key-Ends order certificate pem port baud s' issued)

  use_chip-Ends :
      (order : Order) (certificate : Certificate) (pem : Text)
      → order.has_serial ≡ true
      → issue ops order (new_root_ca ops order.ca_coins) (ops.public_bytes key)
        ≡ ok (certificate, pem)
      → Ends (
          use_chip serial ops from_encoded_point tools order
            (record { artifacts = []; chip = new_chip order.port 115200 }))
  unfolding use_chip
  use_chip-Ends order certificate pem here issued =
      let (s, connected) = connect_bridge serial ops from_encoded_point bridge order.port 115200 in
      let start : Atecc608 S = new_chip order.port 115200 in
      on_chip-Ends (connect serial order.has_serial)
        (λ _. make_key serial ops from_encoded_point tools order.skip_genkey >>= λ _.
          read_key serial ops from_encoded_point tools order)
        start _ (ap (λ (b : Bool). connect serial b start) here ∙ connected)
        (make_key-Ends order order.skip_genkey certificate pem order.port 115200 s issued)

  pub provision_completes :
      (order : Order) (certificate : Certificate) (date : Date) (pem : Text)
      → order.has_serial ≡ true
      → create_certificate ops order.certificate_coins
          (new_root_ca ops order.ca_coins)
          order.battery_id
          order.manufacturer_id
          (ops.public_bytes key)
          order.issue_date
          order.expiry_date
        ≡ ok certificate
      → strptime order.expiry_date ≡ ok date
      → is_past order.now date ≡ false
      → decode (ops.public_bytes key) ≡ ok pem
      → (w : Workshop S) × (provision serial ops from_encoded_point tools order ≡ (ok tt, w))
  unfolding provision
  provision_completes order certificate date pem here created read current text =
      let ends =
        use_chip-Ends order certificate pem here
          (issue_completes order certificate date pem created read current text) in
      let run : Result (Unit {0}) → Result (Unit {0}) × Workshop S = λ r.
        (lift r >>= λ _. use_chip serial ops from_encoded_point tools order)
          (record { artifacts = []; chip = new_chip order.port 115200 }) in
      subst (λ r. Ends (run r)) (sym made) ends
