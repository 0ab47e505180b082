-- ===== src/Simulation.antt =====
-- `simulation/`, the older nodes that exchange whole messages instead of frames, with the messages of
-- `protocol/messages/`, and `authenticate_once` of `performance/crypto/auth_once.py`.
pub mod Completes
use batt_lock.Base.{
  ℕ, Bool, true, false, if◌then◌else◌, not, [], ◌∷◌, ◌++◌, Option, none, some, Result, ok, err,
  ◌>>=◌, attribute_error,
}
use batt_lock.Base.Texts.{Text}
use batt_lock.Base.Json.{Value, text, other}
use batt_lock.Base.Utf8.{encode}
use batt_lock.Base.Decimal.{decimal}
use batt_lock.Base.Dates.{Moment}
use batt_lock.Can.Message.{Bytes}
use batt_lock.Crypto.Library.{CryptoOps}
use batt_lock.Crypto.Models.{Certificate, Challenge}
use batt_lock.Crypto.Signatures.{
  generate_keypair, sign_message, serialize_public_key, deserialize_public_key,
}
use batt_lock.Crypto.Certificates.{RootCa, new_root_ca, create_certificate, verify_certificate}
use batt_lock.Crypto.Auth.{create_challenge, verify_challenge_response}

pub record BatteryHello : Type 0 where
  pub certificate : Certificate

pub record AuthResponse : Type 0 where
  pub signature : Bytes

pub record AuthSuccess : Type 0 where
  pub session_id : Text

-- `Network.send` hands the message on.
unfoldable pub network_send : {M : Type 0} → Text → Text → M → M
network_send sender receiver message = message

-- "2026-01-01" and "2031-01-01".
abbrev pub issue_date : Text
issue_date = 50 ∷ 48 ∷ 50 ∷ 54 ∷ 45 ∷ 48 ∷ 49 ∷ 45 ∷ 48 ∷ 49 ∷ []

abbrev pub expiry_date : Text
expiry_date = 50 ∷ 48 ∷ 51 ∷ 49 ∷ 45 ∷ 48 ∷ 49 ∷ 45 ∷ 48 ∷ 49 ∷ []

module _ {PrivateKey PublicKey : Type 0} (ops : CryptoOps PrivateKey PublicKey) where
  pub record BatteryNode : Type 0 where
    pub battery_id : Text
    pub private_key : PrivateKey
    pub public_key : PublicKey
    pub certificate : Certificate

  -- The randomness of the keys and that of the certificate's signature.
  unfoldable pub new_battery_node : ℕ → ℕ → Text → Text → RootCa ops → Result BatteryNode
  new_battery_node key_coins coins battery_id manufacturer_id root_ca = do
    let (private_key, public_key) = generate_keypair ops key_coins
    certificate ←
        create_certificate ops coins root_ca battery_id manufacturer_id
          (serialize_public_key ops public_key) issue_date expiry_date
    ok (record {
      battery_id = battery_id;
      private_key = private_key;
      public_key = public_key;
      certificate = certificate;
    })

  unfoldable pub send_hello : BatteryNode → BatteryHello
  send_hello node = record { certificate = node.certificate }

  unfoldable pub respond_to_challenge : ℕ → Challenge → BatteryNode → Result AuthResponse
  respond_to_challenge coins challenge node = do
    stamp ← encode (decimal challenge.timestamp)
    ok (record { signature = sign_message ops coins node.private_key (challenge.nonce ++ stamp) })

  pub record VehicleNode : Type 0 where
    pub manufacturer_public_key : PublicKey
    pub challenge : Option Challenge
    pub certificate : Option Certificate

  abbrev pub new_vehicle_node : PublicKey → VehicleNode
  new_vehicle_node manufacturer_public_key = record {
    manufacturer_public_key = manufacturer_public_key;
    challenge = none;
    certificate = none;
  }

  -- The certificate is kept whether it verifies or not.
  unfoldable pub process_hello : Moment → BatteryHello → VehicleNode → Result Bool × VehicleNode
  process_hello now hello v = (
    verify_certificate ops now hello.certificate v.manufacturer_public_key,
    record v { certificate = some hello.certificate },
  )

  unfoldable pub create_auth_challenge : Bytes → ℕ → VehicleNode → Challenge × VehicleNode
  create_auth_challenge nonce timestamp v =
      let challenge = create_challenge nonce timestamp in
      (challenge, record v { challenge = some challenge })

  -- Without a certificate or a challenge the attribute of None is missing; the key is loaded before the
  -- challenge is looked at.
  unfoldable pub verify_auth_response : AuthResponse → VehicleNode → Result Bool
  verify_auth_response response v = elim v.certificate [
    | none ↦ err attribute_error
    | some certificate ↦ elim v.challenge [
      | none ↦ deserialize_public_key ops certificate.public_key >>= λ _. err attribute_error
      | some challenge ↦ verify_challenge_response ops certificate challenge response.signature
    ]
  ]

  -- The token is what `secrets.token_hex(16)` returned. The battery's ID is passed to the session and
  -- not to the answer.
  unfoldable pub create_auth_success : Text → VehicleNode → Result AuthSuccess
  create_auth_success token v = elim v.certificate [
    | none ↦ err attribute_error
    | some certificate ↦ ok (record { session_id = token })
  ]

-- What `authenticate_once` takes from the clock and from the random source.
pub record Draws : Type 0 where
  pub ca_coins : ℕ
  pub battery_coins : ℕ
  pub certificate_coins : ℕ
  pub sign_coins : ℕ
  pub now : Moment
  pub nonce : Bytes
  pub timestamp : ℕ
  pub token : Text

-- "BAT001" and "THAPAR".
abbrev pub once_battery_id : Text
once_battery_id = 66 ∷ 65 ∷ 84 ∷ 48 ∷ 48 ∷ 49 ∷ []

abbrev pub once_manufacturer_id : Text
once_manufacturer_id = 84 ∷ 72 ∷ 65 ∷ 80 ∷ 65 ∷ 82 ∷ []

module _ {PrivateKey PublicKey : Type 0} (ops : CryptoOps PrivateKey PublicKey) where
  unfoldable pub authenticate_once : Draws → Result Bool
  authenticate_once draws = do
    let root_ca = new_root_ca ops draws.ca_coins
    battery ←
        new_battery_node ops draws.battery_coins draws.certificate_coins once_battery_id
          once_manufacturer_id root_ca
    let vehicle = new_vehicle_node ops root_ca.public_key
    let (verdict, vehicle₁) = process_hello ops draws.now (send_hello ops battery) vehicle
    accepted ← verdict
    let (challenge, vehicle₂) = create_auth_challenge ops draws.nonce draws.timestamp vehicle₁
    let answered = do
      response ← respond_to_challenge ops draws.sign_coins challenge battery
      authentic ← verify_auth_response ops response vehicle₂
      let success = create_auth_success ops draws.token vehicle₂
      if authentic then (success >>= λ _. ok true) else ok false
    if accepted then answered else ok false
