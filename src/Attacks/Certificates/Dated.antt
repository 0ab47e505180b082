-- ===== src/Attacks/Certificates/Dated.antt =====
-- What the vehicle makes of the certificates with a wrong date.
use batt_lock.Base.{ℕ, ◌≡◌, ap, sym, false, ok, >>=-eq-ok}
use batt_lock.Base.Texts.{Text}
use batt_lock.Base.Json.{text}
use batt_lock.Base.Dates.{Moment, before, strftime, days_before}
use batt_lock.Base.Dates.Calendar.{IsDay}
use batt_lock.Base.Dates.Days.{days_before-is_past}
use batt_lock.Can.Message.{Bytes}
use batt_lock.Crypto.Library.{CryptoOps}
use batt_lock.Crypto.Models.{Certificate}
use batt_lock.Crypto.Certificates.{RootCa, create_certificate, certificate_data, verify_certificate}
use batt_lock.Crypto.Certificates.Verification.{verify_certificate_expired}
use batt_lock.Attacks.Certificates.{create_expired_certificate}

ok_of : {a b : Certificate} → ok a ≡ ok b → a ≡ b
ok_of h = cc

module _ {PrivateKey PublicKey : Type 0} (ops : CryptoOps PrivateKey PublicKey) where
  create_certificate-expiry_date :
      (coins : ℕ) (root_ca : RootCa ops) (id manufacturer : Text) (key : Bytes)
      (issue expiry : Text) (certificate : Certificate)
      → create_certificate ops coins root_ca id manufacturer key issue expiry ≡ ok certificate
      → certificate.expiry_date ≡ text expiry
  unfolding create_certificate
  create_certificate-expiry_date coins root_ca id manufacturer key issue expiry certificate h =
      let (signed, e, r) =
        >>=-eq-ok (certificate_data (text id) (text manufacturer) key (text issue) (text expiry)) _
          h in
      ap (λ (c : Certificate). c.expiry_date) (sym (ok_of r))

  -- The expired certificate, whose expiry date is the day before the UTC clock's date, is refused wherever
  -- the vehicle's clock shows that date or a later one, under every key, although the trusted root CA may
  -- have signed it; the UTC clock shows a day of the calendar.
  pub create_expired_certificate_refused :
      (utc_now now : Moment) (coins : ℕ) (root_ca : RootCa ops) (id manufacturer : Text)
      (key : Bytes) (certificate : Certificate) (manufacturer_key : PublicKey)
      → IsDay utc_now.date
      → before now.date utc_now.date ≡ false
      → create_expired_certificate ops utc_now coins root_ca id manufacturer key ≡ ok certificate
      → verify_certificate ops now certificate manufacturer_key ≡ ok false
  unfolding create_expired_certificate
  create_expired_certificate_refused utc_now now coins root_ca id manufacturer key certificate
        manufacturer_key is no_sooner h =
      let (yesterday, e, r) = >>=-eq-ok (days_before 1 utc_now) _ h in
      let (last_year, f, q) = >>=-eq-ok (days_before 365 utc_now) _ r in
      let (read, past) = days_before-is_past utc_now now yesterday is no_sooner e in
      verify_certificate_expired ops now certificate manufacturer_key (strftime yesterday) yesterday
        (create_certificate-expiry_date coins root_ca id manufacturer key (strftime last_year)
          (strftime yesterday) certificate q)
        read past
