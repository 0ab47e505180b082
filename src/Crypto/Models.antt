-- ===== src/Crypto/Models.antt =====
-- The records of `crypto/models`, and the sessions and challenges of `crypto/auth`.
use batt_lock.Base.{ℕ}
use batt_lock.Base.Texts.{Text}
use batt_lock.Base.Json.{Value}
use batt_lock.Can.Message.{Bytes}

-- `Certificate`. A certificate that was decoded has whatever JSON value stood in a text field.
pub record Certificate : Type 0 where
  pub battery_id : Value
  pub manufacturer_id : Value
  pub public_key : Bytes
  pub issue_date : Value
  pub expiry_date : Value
  pub signature : Bytes

pub record BatteryIdentity : Type 0 where
  pub battery_id : Text
  pub serial_number : Text
  pub manufacturer_id : Text

pub record Challenge : Type 0 where
  pub nonce : Bytes
  pub timestamp : ℕ

pub record Session : Type 0 where
  pub session_id : Text
  pub battery_id : Text
