-- ===== src/Simulation/Completes.antt =====
-- An authentication between the older nodes succeeds.
use batt_lock.Base.{ℕ, ◌≡◌, refl, true, false, ◌++◌, ok}
use batt_lock.Base.Json.{text}
use batt_lock.Base.Utf8.{encode, encode_char, encode_total, ascii-IsScalar}
use batt_lock.Base.Decimal.{decimal, decimal_ascii}
use batt_lock.Base.Dates.{Date, strptime, is_past}
use batt_lock.Can.Message.{Bytes}
use batt_lock.Crypto.Library.{CryptoOps, IsCrypto}
use batt_lock.Crypto.Models.{Certificate}
use batt_lock.Crypto.Signatures.{
  generate_keypair, sign_message, serialize_public_key, deserialize_public_key, verify_signature,
  returns_false,
}
use batt_lock.Crypto.Certificates.{new_root_ca, create_certificate, certificate_data, encode_value}
use batt_lock.Crypto.Certificates.Verification.{
  verify_certificate-create_certificate, create_certificate-public_key,
}
use batt_lock.Crypto.Auth.{create_challenge, verify_challenge_response}
use batt_lock.Simulation.{
  Draws, issue_date, expiry_date, once_battery_id, once_manufacturer_id, new_battery_node,
  send_hello, respond_to_challenge, process_hello, create_auth_challenge, verify_auth_response,
  create_auth_success, authenticate_once,
}

abbrev last_day : Date
last_day = record { year = 2031; month = 1; day = 1 }

read_expiry : strptime expiry_date ≡ ok last_day
unfolding strptime
read_expiry = refl

module _ {PrivateKey PublicKey : Type 0} (ops : CryptoOps PrivateKey PublicKey)
    (laws : IsCrypto ops) where
  issued :
      (coins ca_coins : ℕ) (key : Bytes)
      → (certificate : Certificate) × (create_certificate ops coins
            (new_root_ca ops ca_coins)
            once_battery_id
            once_manufacturer_id
            key
            issue_date
            expiry_date
          ≡ ok certificate)
  unfolding create_certificate certificate_data encode_value encode encode_char
  issued coins ca_coins key = (
    record {
      battery_id = text once_battery_id;
      manufacturer_id = text once_manufacturer_id;
      public_key = key;
      issue_date = text issue_date;
      expiry_date = text expiry_date;
      signature =
          ops.sign coins (new_root_ca ops ca_coins).private_key
            (once_battery_id ++ once_manufacturer_id ++ key ++ issue_date ++ expiry_date);
    },
    refl,
  )

  -- With the older nodes the vehicle authenticates the battery, whatever randomness is drawn, up to and
  -- including the start of the day on which the battery's certificate expires.
  pub authenticate_once_completes :
      (draws : Draws) → is_past draws.now last_day ≡ false → authenticate_once ops draws ≡ ok true
  unfolding authenticate_once new_battery_node send_hello process_hello create_auth_challenge
      respond_to_challenge verify_auth_response create_auth_success create_challenge
      verify_challenge_response generate_keypair sign_message serialize_public_key
      deserialize_public_key verify_signature returns_false
  authenticate_once_completes draws current =
      let private_key = ops.generate_private_key draws.battery_coins in
      let key = ops.public_bytes (ops.public_key private_key) in
      let (certificate, made) = issued draws.certificate_coins draws.ca_coins key in
      let accepted =
        verify_certificate-create_certificate ops laws draws.now draws.ca_coins
          draws.certificate_coins once_battery_id once_manufacturer_id key issue_date expiry_date
          last_day certificate made read_expiry current in
      let same = create_certificate-public_key ops _ _ _ _ _ _ _ certificate made in
      let (stamp, e) =
        encode_total (decimal draws.timestamp) (ascii-IsScalar _ (decimal_ascii draws.timestamp)) in
      rw
        (
          made,
          accepted,
          e,
          same,
          laws.load-public_bytes (ops.public_key private_key),
          laws.verify-sign draws.sign_coins private_key (draws.nonce ++ stamp),
        )
        refl
