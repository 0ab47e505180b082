-- ===== src/Provisioning/Issue.antt =====
-- `provisioning/provision.py`: what is ordered, and the certificate that is issued for it.
use batt_lock.Base.{
  ℕ, Bool, not, Result, ok, ◌>>=◌, ◌>>◌, raise_if, runtime_error, self_check_failed,
}
use batt_lock.Base.Texts.{Text}
use batt_lock.Base.Utf8.{decode}
use batt_lock.Base.Dates.{Moment}
use batt_lock.Can.Message.{Bytes}
use batt_lock.Crypto.Library.{CryptoOps}
use batt_lock.Crypto.Models.{Certificate}
use batt_lock.Crypto.Certificates.{RootCa, create_certificate, verify_certificate}

-- The arguments, and what the run takes from the clock and the random source.
pub record Order : Type 0 where
  pub port : Text
  pub battery_id : Text
  pub manufacturer_id : Text
  pub skip_genkey : Bool
  pub has_serial : Bool
  pub ca_coins : ℕ
  pub certificate_coins : ℕ
  pub issue_date : Text
  pub expiry_date : Text
  pub now : Moment

-- From `create_certificate` on, up to the first file that is written then: the certificate, which has
-- verified, and its key as a str.
unfoldable pub issue :
    {PrivateKey PublicKey : Type 0} (ops : CryptoOps PrivateKey PublicKey)
    → Order
    → RootCa ops
    → Bytes
    → Result (Certificate × Text)
issue ops order root_ca pub_pem = do
  certificate ←
      create_certificate ops order.certificate_coins root_ca order.battery_id order.manufacturer_id
        pub_pem order.issue_date order.expiry_date
  verified ← verify_certificate ops order.now certificate root_ca.public_key
  raise_if (not verified) (runtime_error self_check_failed)
  pem ← decode pub_pem
  ok (certificate, pem)
