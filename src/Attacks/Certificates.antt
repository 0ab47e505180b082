-- ===== src/Attacks/Certificates.antt =====
-- `attacks/certificate_tampering_attack.py`.
pub mod Dated
use batt_lock.Base.{ℕ, [], ◌∷◌, Result, ok, err, ◌>>=◌, value_error, unknown_field}
use batt_lock.Base.Texts.{Text}
use batt_lock.Base.Json.{text}
use batt_lock.Base.Dates.{Moment, days_before, days_after, strftime}
use batt_lock.Can.Message.{Bytes}
use batt_lock.Crypto.Library.{CryptoOps}
use batt_lock.Crypto.Models.{Certificate}
use batt_lock.Crypto.Certificates.{RootCa, new_root_ca, create_certificate}

-- The names of the fields that can be tampered with, each with its new value.
pub data Tampering : Type 0 where
  set_battery_id set_manufacturer_id set_issue_date set_expiry_date : Text → Tampering
  set_public_key : Bytes → Tampering
  unknown : Text → Tampering

unfoldable pub tamper_certificate_field : Tampering → Certificate → Result Certificate
tamper_certificate_field (set_battery_id t) certificate =
    ok (record certificate { battery_id = text t })
tamper_certificate_field (set_manufacturer_id t) certificate =
    ok (record certificate { manufacturer_id = text t })
tamper_certificate_field (set_issue_date t) certificate =
    ok (record certificate { issue_date = text t })
tamper_certificate_field (set_expiry_date t) certificate =
    ok (record certificate { expiry_date = text t })
tamper_certificate_field (set_public_key b) certificate = ok (record certificate { public_key = b })
tamper_certificate_field (unknown t) certificate = err (value_error unknown_field)

module _ {PrivateKey PublicKey : Type 0} (ops : CryptoOps PrivateKey PublicKey) where
  -- The clock is that of UTC.
  unfoldable pub create_expired_certificate :
      Moment → ℕ → RootCa ops → Text → Text → Bytes → Result Certificate
  create_expired_certificate utc_now coins root_ca battery_id manufacturer_id key = do
    yesterday ← days_before 1 utc_now
    last_year ← days_before 365 utc_now
    create_certificate ops coins root_ca battery_id manufacturer_id key (strftime last_year)
        (strftime yesterday)

  unfoldable pub create_future_certificate :
      Moment → ℕ → RootCa ops → Text → Text → Bytes → Result Certificate
  create_future_certificate utc_now coins root_ca battery_id manufacturer_id key = do
    tomorrow ← days_after 1 utc_now
    next_year ← days_after 365 utc_now
    create_certificate ops coins root_ca battery_id manufacturer_id key (strftime tomorrow)
        (strftime next_year)

  -- The dates are 2026-01-01 and 2031-01-01.
  unfoldable pub create_self_signed_certificate : ℕ → ℕ → Text → Text → Bytes → Result Certificate
  create_self_signed_certificate ca_coins coins battery_id manufacturer_id key =
      create_certificate ops coins (new_root_ca ops ca_coins) battery_id manufacturer_id key
        (50 ∷ 48 ∷ 50 ∷ 54 ∷ 45 ∷ 48 ∷ 49 ∷ 45 ∷ 48 ∷ 49 ∷ [])
        (50 ∷ 48 ∷ 51 ∷ 49 ∷ 45 ∷ 48 ∷ 49 ∷ 45 ∷ 48 ∷ 49 ∷ [])
