-- ===== src/Crypto/Certificates/Verification.antt =====
-- What the verification of a certificate accepts.
use batt_lock.Base.{
  ℕ, ◌≡◌, inl, inr, refl, ap, sym, Bool-cases, true, false, ◌++◌, arith, ◌↔◌, Result, ok, err,
  >>=-eq-ok,
}
use batt_lock.Base.Texts.{Text}
use batt_lock.Base.Utf8.{encode}
use batt_lock.Base.Json.{Value, text, other}
use batt_lock.Base.Dates.{Date, Moment, strptime, is_past}
use batt_lock.Can.Message.{Bytes}
use batt_lock.Crypto.Library.{CryptoOps, IsCrypto}
use batt_lock.Crypto.Models.{Certificate}
use batt_lock.Crypto.Signatures.{returns_false}
use batt_lock.Crypto.Certificates.{
  certificate_data, encode_value, is_certificate_expired, RootCa, new_root_ca, create_certificate,
  verify_certificate,
}
use batt_lock.Crypto.Certificates.Encoding.{
  certificate_data_boundary, certificate_data-Parts, same_text,
}

pub returns_false-true : (r : Result (Unit {0})) → returns_false r ≡ ok true → r ≡ ok tt
unfolding returns_false
returns_false-true (ok u) h = refl
returns_false-true (err e) h = ground arith

ok_of : {a b : Certificate} → ok a ≡ ok b → a ≡ b
ok_of h = cc

module _ {PrivateKey PublicKey : Type 0} (ops : CryptoOps PrivateKey PublicKey) where
  pub create_certificate-public_key :
      (coins : ℕ) (root_ca : RootCa ops) (battery_id manufacturer_id : Text) (key : Bytes)
      (issue expiry : Text) (certificate : Certificate)
      → create_certificate ops coins root_ca battery_id manufacturer_id key issue expiry
        ≡ ok certificate
      → certificate.public_key ≡ key
  unfolding create_certificate
  create_certificate-public_key coins root_ca battery_id manufacturer_id key issue expiry
        certificate h =
      let (signed, e, r) =
        >>=-eq-ok
          (certificate_data (text battery_id) (text manufacturer_id) key (text issue) (text expiry))
          _ h in
      ap (λ (c : Certificate). c.public_key) (sym (ok_of r))

  -- A certificate that `create_certificate` returns verifies under the key of the root CA that issued it,
  -- whatever randomness the signature drew, as long as its expiry date can be read and is not past.
  pub verify_certificate-create_certificate :
      (laws : IsCrypto ops) (now : Moment) (ca_coins coins : ℕ) (battery_id manufacturer_id : Text)
      (key : Bytes) (issue expiry : Text) (date : Date) (certificate : Certificate)
      → create_certificate ops coins
          (new_root_ca ops ca_coins)
          battery_id
          manufacturer_id
          key
          issue
          expiry
        ≡ ok certificate
      → strptime expiry ≡ ok date
      → is_past now date ≡ false
      → verify_certificate ops now certificate (new_root_ca ops ca_coins).public_key ≡ ok true
  unfolding create_certificate verify_certificate new_root_ca is_certificate_expired returns_false
  verify_certificate-create_certificate laws now ca_coins coins battery_id manufacturer_id key issue
        expiry date certificate h d p =
      let (signed, e, r) =
        >>=-eq-ok
          (certificate_data (text battery_id) (text manufacturer_id) key (text issue) (text expiry))
          _ h in
      let private_key = ops.generate_private_key ca_coins in
      let made : certificate ≡ record {
        battery_id = text battery_id;
        manufacturer_id = text manufacturer_id;
        public_key = key;
        issue_date = text issue;
        expiry_date = text expiry;
        signature = ops.sign coins private_key signed;
      } =
        cc r in
      rw (made, d, p, e, laws.verify-sign coins private_key signed)

  -- The fields of an accepted certificate, with the bytes that its signature is over.
  pub record IsAccepted (now : Moment) (certificate : Certificate) (key : PublicKey) : Type 0 where
    pub battery : Text
    pub manufacturer : Text
    pub issue : Text
    pub expiry : Text
    pub battery_id : certificate.battery_id ≡ text battery
    pub manufacturer_id : certificate.manufacturer_id ≡ text manufacturer
    pub issue_date : certificate.issue_date ≡ text issue
    pub expiry_date : certificate.expiry_date ≡ text expiry
    pub date : Date
    pub read : strptime expiry ≡ ok date
    pub current : is_past now date ≡ false
    pub b : Bytes
    pub m : Bytes
    pub i : Bytes
    pub e : Bytes
    pub battery_bytes : encode battery ≡ ok b
    pub manufacturer_bytes : encode manufacturer ≡ ok m
    pub issue_bytes : encode issue ≡ ok i
    pub expiry_bytes : encode expiry ≡ ok e
    pub verified :
        ops.verify key certificate.signature (b ++ m ++ certificate.public_key ++ i ++ e) ≡ ok tt

  accepted_unexpired :
      (now : Moment) (certificate : Certificate)
      → is_certificate_expired now certificate ≡ ok false
      → (expiry : Text) × (date : Date) × (certificate.expiry_date ≡ text expiry)
        × (strptime expiry ≡ ok date)
        × (is_past now date ≡ false)
  unfolding is_certificate_expired
  accepted_unexpired now certificate h = go certificate.expiry_date refl
    where
      go :
          (v : Value)
          → certificate.expiry_date ≡ v
          → (expiry : Text) × (date : Date) × (certificate.expiry_date ≡ text expiry)
            × (strptime expiry ≡ ok date)
            × (is_past now date ≡ false)
      go (text t) e =
          let (date, d, r) = >>=-eq-ok (strptime t) _ (rw e at h) in (t, date, e, d, cc r)
      go other e = cc (rw e at h)

  verify_certificate_sound :
      (now : Moment) (certificate : Certificate) (key : PublicKey)
      → verify_certificate ops now certificate key ≡ ok true
      → IsAccepted now certificate key
  unfolding verify_certificate
  verify_certificate_sound now certificate key h =
      let (expired, e, r) = >>=-eq-ok (is_certificate_expired now certificate) _ h in
      elim (Bool-cases expired) [
        | inl past ↦ cc (rw past at r)
        | inr current ↦
            let (expiry, date, w, d, p) = accepted_unexpired now certificate (rw current at e) in
            let (signed, s, v) =
              >>=-eq-ok
                (certificate_data certificate.battery_id certificate.manufacturer_id
                  certificate.public_key certificate.issue_date certificate.expiry_date)
                _ (rw current at r) in
            let parts =
              certificate_data-Parts certificate.battery_id certificate.manufacturer_id
                certificate.public_key certificate.issue_date certificate.expiry_date signed s in
            record {
              battery = parts.battery.0;
              manufacturer = parts.manufacturer.0;
              issue = parts.issue.0;
              expiry = expiry;
              battery_id = parts.battery.1;
              manufacturer_id = parts.manufacturer.1;
              issue_date = parts.issue.1;
              expiry_date = w;
              date = date;
              read = d;
              current = p;
              b = parts.b;
              m = parts.m;
              i = parts.i;
              e = parts.e;
              battery_bytes = parts.battery.2;
              manufacturer_bytes = parts.manufacturer.2;
              issue_bytes = parts.issue.2;
              expiry_bytes = same_text w parts.expiry.1 parts.expiry.2;
              verified = rw (sym parts.joined) (returns_false-true _ v);
            }
      ]

  verify_certificate_complete :
      (now : Moment) (certificate : Certificate) (key : PublicKey)
      → IsAccepted now certificate key
      → verify_certificate ops now certificate key ≡ ok true
  unfolding verify_certificate is_certificate_expired certificate_data encode_value returns_false
  verify_certificate_complete now certificate key a =
      rw
        (
          a.battery_id, a.manufacturer_id, a.issue_date, a.expiry_date, a.read, a.current,
          a.battery_bytes, a.manufacturer_bytes, a.issue_bytes, a.expiry_bytes, a.verified,
        )
        refl

  -- A certificate is accepted exactly if its four text fields are strings that have a UTF-8 form, its
  -- expiry date can be read and is not past, and its signature verifies, under the key given, over the
  -- bytes of the battery's ID, the manufacturer's ID, the public key, the issue date and the expiry date,
  -- in this order and with nothing in between.
  pub verify_certificate_iff :
      (now : Moment) (certificate : Certificate) (key : PublicKey)
      → (verify_certificate ops now certificate key ≡ ok true) ↔ IsAccepted now certificate key
  verify_certificate_iff now certificate key = (
    verify_certificate_sound now certificate key,
    verify_certificate_complete now certificate key,
  )

  -- A certificate whose expiry date is past is refused, whatever its signature.
  pub verify_certificate_expired :
      (now : Moment) (certificate : Certificate) (key : PublicKey) (expiry : Text) (date : Date)
      → certificate.expiry_date ≡ text expiry
      → strptime expiry ≡ ok date
      → is_past now date ≡ true
      → verify_certificate ops now certificate key ≡ ok false
  unfolding verify_certificate is_certificate_expired
  verify_certificate_expired now certificate key expiry date w d p = ground arith

  -- The boundary between the battery ID and the manufacturer ID is not signed: a certificate for the ID
  -- `a ++ b` of the manufacturer `c` and the one with the same signature for the ID `a` of the
  -- manufacturer `b ++ c` get the same verdict, under every key and at every time.
  pub verify_certificate_boundary :
      (now : Moment) (certificate : Certificate) (key : PublicKey) (a b c : Text)
      → verify_certificate ops now
          (record certificate { battery_id = text (a ++ b); manufacturer_id = text c })
          key
        ≡ verify_certificate ops now
            (record certificate { battery_id = text a; manufacturer_id = text (b ++ c) })
            key
  unfolding verify_certificate is_certificate_expired
  verify_certificate_boundary now certificate key a b c = rw (
      certificate_data_boundary a b c certificate.public_key certificate.issue_date
        certificate.expiry_date)
