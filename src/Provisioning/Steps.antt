-- ===== src/Provisioning/Steps.antt =====
-- What the steps of the provisioning tool leave in its directory, where they end and where they raise.
use batt_lock.Base.{
  ℕ, ◌≡◌, inl, inr, refl, ap, sym, ◌∙◌, Bool, Bool-cases, true, false, List, [], ◌∷◌, ◌++◌, take,
  none, arith, Error, Result, ok, err,
}
use mathlib.Core.Path.{subst}
use batt_lock.Base
use batt_lock.Base.Texts.{Text}
use batt_lock.Base.Utf8.{decode}
use batt_lock.Can.Message.{Bytes}
use batt_lock.Crypto.Library.{CryptoOps}
use batt_lock.Crypto.Models.{Certificate}
use batt_lock.Crypto.Signatures.{serialize_public_key}
use batt_lock.Crypto.Certificates.{RootCa, new_root_ca, create_certificate, verify_certificate}
use batt_lock.Crypto.Certificates.Verification.{create_certificate-public_key}
use batt_lock.Crypto.Chip.{
  SerialOps, Atecc608, new_chip, connect, genkey, chip_public_key, close, close_ser,
}
use batt_lock.Provisioning.Issue.{Order, issue}
use batt_lock.Provisioning.{
  Artifact, battery_public_key_pem, battery_certificate_json, root_ca_public_key_pem,
  root_ca_private_key_pem, Workshop, M, ◌>>=◌, lift, on_chip, cert_json, ToolOps, write, make_key,
  save_artifacts, certify_key, certify, read_key, use_chip, provision,
}

-- A chip that has been closed.
abbrev pub IsClosed : {S : Type 0} → Atecc608 S → Type 0
IsClosed chip = (chip.connected ≡ false) × (chip.ser ≡ none)

close-IsClosed :
    {S : Type 0} (serial : SerialOps S) (chip : Atecc608 S)
    → (close serial chip).0 ≡ ok tt
    → IsClosed (close serial chip).1
unfolding close close_ser
close-IsClosed serial chip h = ground arith

-- Of the files `all` a first part is there, and all of them, with a chip that is closed, at the end.
pub record IsPrefix {S : Type 0} (all : List Artifact) (r : Result (Unit {0}) × Workshop S)
    : Type 0 where
  pub n : ℕ
  pub first : r.1.artifacts ≡ take n all
  pub whole : r.0 ≡ ok tt → (r.1.artifacts ≡ all) × IsClosed r.1.chip

module _ {PrivateKey PublicKey : Type 0} (ops : CryptoOps PrivateKey PublicKey) where
  pub issue_sound :
      (order : Order) (root_ca : RootCa ops) (pub_pem : Bytes) (certificate : Certificate)
      (pem : Text)
      → issue ops order root_ca pub_pem ≡ ok (certificate, pem)
      → (certificate.public_key ≡ pub_pem)
        × (verify_certificate ops order.now certificate root_ca.public_key ≡ ok true)
  unfolding issue
  issue_sound order root_ca pub_pem certificate pem h =
      let (made, e, r) = Base.>>=-eq-ok (create_certificate ops _ _ _ _ _ _ _) _ h in
      let (verified, f, q) =
        Base.>>=-eq-ok (verify_certificate ops order.now made root_ca.public_key) _ r in
      elim (Bool-cases verified) [
        | inr bad ↦ cc (rw bad at q)
        | inl good ↦
            let (text, _, p) = Base.>>=-eq-ok (decode pub_pem) _ (rw good at q) in
            let same : made ≡ certificate = cc p in
            (
              ap (λ (c : Certificate). c.public_key) (sym same)
                  ∙ create_certificate-public_key ops _ _ _ _ _ _ _ made e,
              subst
                  (λ (c : Certificate).
                    verify_certificate ops order.now c root_ca.public_key ≡ ok true)
                  same (rw good at f),
            )
      ]

module _ {PrivateKey PublicKey : Type 0} (ops : CryptoOps PrivateKey PublicKey)
    (tools : ToolOps PrivateKey) where
  -- The four files.
  abbrev pub files : Order → PublicKey → Certificate → Text → List Artifact
  files order key certificate pem =
      battery_public_key_pem (serialize_public_key ops key)
      ∷ battery_certificate_json (cert_json certificate pem)
      ∷ root_ca_public_key_pem
          (serialize_public_key ops (new_root_ca ops order.ca_coins).public_key)
      ∷ root_ca_private_key_pem (tools.private_bytes (new_root_ca ops order.ca_coins).private_key)
      ∷ []

  -- What is left behind: nothing, the battery's public key, or a first part of the four files with a
  -- certificate that was issued for the key.
  pub data IsLeft {S : Type 0} (order : Order) (r : Result (Unit {0}) × Workshop S) : Type 0 where
    nothing : (e : Error) → r.0 ≡ err e → r.1.artifacts ≡ [] → IsLeft order r
    key_only :
        (e : Error) (key : PublicKey)
        → r.0 ≡ err e
        → r.1.artifacts ≡ battery_public_key_pem (serialize_public_key ops key) ∷ []
        → IsLeft order r
    certified :
        (key : PublicKey) (certificate : Certificate) (pem : Text)
        → issue ops order (new_root_ca ops order.ca_coins) (serialize_public_key ops key)
          ≡ ok (certificate, pem)
        → IsPrefix (files order key certificate pem) r
        → IsLeft order r

  module _ {S : Type 0} (serial : SerialOps S) (from_encoded_point : Bytes → Result PublicKey) where
    -- A file is written or raises.
    write-cases :
        (P : Result (Unit {0}) × Workshop S → Type 0) (artifact : Artifact)
        (next : Unit {0} → M S (Unit {0})) (w : Workshop S)
        → ((e : Error) → P (err e, w))
        → P (next tt (record w { artifacts = w.artifacts ++ artifact ∷ [] }))
        → P ((write serial ops from_encoded_point tools artifact >>= next) w)
    unfolding write
    write-cases P artifact next w raised rest = go (tools.save artifact)
      where
        go :
            (r : Result (Unit {0}))
            → P (
                ((λ (w : Workshop S). elim r as (λ _. Result (Unit {0}) × Workshop S) [
                  | err e ↦ (err e, w)
                  | ok u ↦ (ok tt, record w { artifacts = w.artifacts ++ artifact ∷ [] })
                ])
                    >>= next)
                  w)
        go (err e) = raised e
        go (ok u) = rest

    save_artifacts-IsPrefix :
        (order : Order) (key : PublicKey) (certificate : Certificate) (pem : Text)
        (chip : Atecc608 S)
        → IsPrefix (files order key certificate pem) (
            save_artifacts serial ops from_encoded_point tools
              (new_root_ca ops order.ca_coins)
              certificate
              pem
              (record {
                artifacts = battery_public_key_pem (serialize_public_key ops key) ∷ [];
                chip = chip;
              }))
    unfolding save_artifacts
    save_artifacts-IsPrefix order key certificate pem chip =
        let root = new_root_ca ops order.ca_coins in
        let all = files order key certificate pem in
        let json = battery_certificate_json (cert_json certificate pem) in
        let public_pem = root_ca_public_key_pem (serialize_public_key ops root.public_key) in
        let private_pem = root_ca_private_key_pem (tools.private_bytes root.private_key) in
        let write_it = write serial ops from_encoded_point tools in
        write-cases (IsPrefix all) json
          (λ _. write_it public_pem >>= λ _. write_it private_pem >>= λ _. on_chip (close serial)) _
          (λ e. record { n = 1; first = refl; whole = λ h. cc })
          (write-cases (IsPrefix all) public_pem
            (λ _. write_it private_pem >>= λ _. on_chip (close serial)) _
            (λ e. record { n = 2; first = refl; whole = λ h. cc })
            (write-cases (IsPrefix all) private_pem (λ _. on_chip (close serial)) _
              (λ e. record { n = 3; first = refl; whole = λ h. cc })
              (record { n = 4; first = refl; whole = λ h. (refl, close-IsClosed serial chip h) })))

    certify_key-IsLeft :
        (order : Order) (key : PublicKey) (chip : Atecc608 S)
        → IsLeft order (
            certify_key serial ops from_encoded_point tools order
              (serialize_public_key ops key)
              (record {
                artifacts = battery_public_key_pem (serialize_public_key ops key) ∷ [];
                chip = chip;
              }))
    unfolding certify_key
    certify_key-IsLeft order key chip =
        go (issue ops order (new_root_ca ops order.ca_coins) (serialize_public_key ops key)) refl
      where
        start : Workshop S
        start = record {
          artifacts = battery_public_key_pem (serialize_public_key ops key) ∷ [];
          chip = chip;
        }

        go :
            (r : Result (Certificate × Text))
            → issue ops order (new_root_ca ops order.ca_coins) (serialize_public_key ops key) ≡ r
            → IsLeft order (
                certify_key serial ops from_encoded_point tools order
                  (serialize_public_key ops key)
                  start)
        go (err x) e = rw e (key_only x key refl refl)
        go (ok (certificate, pem)) e = rw e (
            certified key certificate pem e
              (save_artifacts-IsPrefix order key certificate pem chip))

    certify-IsLeft :
        (order : Order) (key : PublicKey) (chip : Atecc608 S)
        → IsLeft order (
            certify serial ops from_encoded_point tools order key
              (record { artifacts = []; chip = chip }))
    unfolding certify
    certify-IsLeft order key chip =
        write-cases (IsLeft order) (battery_public_key_pem (serialize_public_key ops key))
          (λ _.
            certify_key serial ops from_encoded_point tools order (serialize_public_key ops key))
          (record { artifacts = []; chip = chip }) (λ e. nothing e refl refl)
          (certify_key-IsLeft order key chip)

    -- The files are as they were before a method of the chip.
    on_chip-IsLeft :
        {A : Type 0} (order : Order) (method : Atecc608 S → Result A × Atecc608 S)
        (next : A → M S (Unit {0})) (chip : Atecc608 S)
        → ((x : A) (chip' : Atecc608 S)
            → IsLeft order (next x (record { artifacts = []; chip = chip' })))
        → IsLeft order ((on_chip method >>= next) (record { artifacts = []; chip = chip }))
    on_chip-IsLeft order method next chip rest =
        let (r, chip') = method chip in go r chip' next rest
      where
        go :
            {A : Type 0} (r : Result A) (chip : Atecc608 S) (next : A → M S (Unit {0}))
            → ((x : A) (chip' : Atecc608 S)
                → IsLeft order (next x (record { artifacts = []; chip = chip' })))
            → IsLeft order ((lift r >>= next) (record { artifacts = []; chip = chip }))
        go (ok x) chip next rest = rest x chip
        go (err e) chip next rest = nothing e refl refl

    read_key-IsLeft :
        (order : Order) (chip : Atecc608 S)
        → IsLeft order (
            read_key serial ops from_encoded_point tools order
              (record { artifacts = []; chip = chip }))
    unfolding read_key
    read_key-IsLeft order chip =
        on_chip-IsLeft order (chip_public_key serial from_encoded_point)
          (certify serial ops from_encoded_point tools order) chip (certify-IsLeft order)

    make_key-IsLeft :
        (order : Order) (skip : Bool) (chip : Atecc608 S)
        → IsLeft order (
            (make_key serial ops from_encoded_point tools skip >>= λ _.
            read_key serial ops from_encoded_point tools order)
              (record { artifacts = []; chip = chip }))
    unfolding make_key
    make_key-IsLeft order true chip = read_key-IsLeft order chip
    make_key-IsLeft order false chip =
        on_chip-IsLeft order (genkey serial)
          (λ _. read_key serial ops from_encoded_point tools order) chip
          (λ _. read_key-IsLeft order)

    use_chip-IsLeft :
        (order : Order) (chip : Atecc608 S)
        → IsLeft order (
            use_chip serial ops from_encoded_point tools order
              (record { artifacts = []; chip = chip }))
    unfolding use_chip
    use_chip-IsLeft order chip =
        on_chip-IsLeft order (connect serial order.has_serial)
          (λ _. make_key serial ops from_encoded_point tools order.skip_genkey >>= λ _.
            read_key serial ops from_encoded_point tools order)
          chip (λ _. make_key-IsLeft order order.skip_genkey)

    pub provision-IsLeft :
        (order : Order) → IsLeft order (provision serial ops from_encoded_point tools order)
    unfolding provision
    provision-IsLeft order = go tools.makedirs
      where
        go :
            (r : Result (Unit {0}))
            → IsLeft order (
                (lift r >>= λ _. use_chip serial ops from_encoded_point tools order)
                  (record { artifacts = []; chip = new_chip order.port 115200 }))
        go (err x) = nothing x refl refl
        go (ok u) = use_chip-IsLeft order (new_chip order.port 115200)
