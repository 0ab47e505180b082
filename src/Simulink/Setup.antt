-- ===== src/Simulink/Setup.antt =====
-- `simulink/generate_extra_modes.py`: what every mode begins with.
use batt_lock.Base.{ℕ, Result, ok, ◌>>=◌}
use batt_lock.Base.Texts.{Text, codes}
use batt_lock.Base.Float.{FloatOps}
use batt_lock.Base.Dates.{Moment}
use batt_lock.Can.Message.{Bytes, CanMessage}
use batt_lock.Can.Vehicle.{VehicleNode, receive}
use batt_lock.Crypto.Library.{CryptoOps}
use batt_lock.Crypto.Models.{BatteryIdentity, Certificate}
use batt_lock.Crypto.Signatures.{generate_keypair, serialize_public_key}
use batt_lock.Crypto.Certificates.{RootCa, new_root_ca, create_certificate}
use batt_lock.Attacks.Fuzzing.{Source}

-- What a mode takes from the clock and from the random source.
pub record Chances : Type 0 where
  pub key_coins : ℕ
  pub ca_coins : ℕ
  pub rogue_coins : ℕ
  -- One for each certificate and for the signature.
  pub sign_coins : ℕ → ℕ
  pub now : Moment
  pub utc_now : Moment
  pub nonce : Bytes
  pub token : Text
  -- What the module random draws after `random.seed(42)`.
  pub source : Source

abbrev pub the_battery : BatteryIdentity
the_battery = record {
  battery_id = codes "BAT001";
  serial_number = codes "SN001";
  manufacturer_id = codes "TESLA";
}

module _ {PrivateKey PublicKey : Type 0} (crypto : CryptoOps PrivateKey PublicKey) where
  -- The keys, the root CA and the certificate; the battery is always the same.
  pub record Issued : Type 0 where
    pub private_key : PrivateKey
    pub public_key : PublicKey
    pub root_ca : RootCa crypto
    pub certificate : Certificate

  unfoldable pub battery_and_cert : Chances → Result Issued
  battery_and_cert chances = do
    let (private_key, public_key) = generate_keypair crypto chances.key_coins
    let root_ca = new_root_ca crypto chances.ca_coins
    certificate ←
        create_certificate crypto (chances.sign_coins 0) root_ca (codes "BAT001") (codes "TESLA")
          (serialize_public_key crypto public_key) (codes "2026-06-01") (codes "2031-06-01")
    ok (record {
      private_key = private_key;
      public_key = public_key;
      root_ca = root_ca;
      certificate = certificate;
    })

-- `vehicle.receive(frame)` as a statement.
unfoldable pub hand_over :
    {F PublicKey : Type 0}
    → FloatOps F
    → CanMessage
    → VehicleNode PublicKey
    → Result (VehicleNode PublicKey)
hand_over ops message vehicle = do
  let (printed, vehicle') = receive ops message vehicle
  verdict ← printed
  ok vehicle'
