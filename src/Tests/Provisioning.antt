-- ===== src/Tests/Provisioning.antt =====
-- The provisioning of the chip in `Tests.Chip`, and a vehicle that gets its certificate.
use batt_lock.Base.{
  ℕ, ◌≡◌, refl, true, false, [], ◌∷◌, some, ok, err, runtime_error, no_pyserial, arith,
}
use batt_lock.Base.Texts.{codes}
use batt_lock.Base.Utf8.{encode, encode_char, decode, decode_from, decode_byte, ascii-IsScalar}
use batt_lock.Base.Dates.{strptime, is_past}
use batt_lock.Can.Message.{Bytes, CanMessage}
use batt_lock.Can.Battery.{send_certificate}
use batt_lock.Can.Codec.RoundTrip.{IsIssuable}
use batt_lock.Can.Vehicle.{VehicleNode, new_vehicle, receive_and_verify_certificate}
use batt_lock.Crypto.Certificates.{
  new_root_ca, create_certificate, certificate_data, encode_value, verify_certificate,
  is_certificate_expired,
}
use batt_lock.Crypto.Signatures.{returns_false}
use batt_lock.Crypto.Chip.{connect}
use batt_lock.Provisioning.Issue.{Order, issue as issue_certificate}
use batt_lock.Provisioning.Accepted.{issued_accepted}
use batt_lock.Provisioning.{Workshop, ToolOps, use_chip, provision}
use batt_lock.Provisioning.Completes.{provision_completes}
use batt_lock.Provisioning.Saved.{IsSaved, provision-IsSaved}
use batt_lock.Provisioning.Raised.{IsConsistent, provision_raised}
use batt_lock.Tests.Crypto.{toy, toy-IsCrypto}
use batt_lock.Tests.Json.{triples, triples-IsJson}
use batt_lock.Tests.Certificates.{
  issue, expiry, last_day, noon, read_expiry, in_time, issued, created,
}
use batt_lock.Tests.Chip.{serial, from_encoded_point, bridge}

abbrev order : Order
order = record {
  port = codes "COM3";
  battery_id = 66 ∷ [];
  manufacturer_id = 77 ∷ [];
  skip_genkey = false;
  has_serial = true;
  ca_coins = 4;
  certificate_coins = 0;
  issue_date = issue;
  expiry_date = expiry;
  now = noon;
}

abbrev tools : ToolOps ℕ
tools = record { private_bytes = λ key. key ∷ []; makedirs = ok tt; save = λ artifact. ok tt }

read_pem : decode (7 ∷ []) ≡ ok (7 ∷ [])
unfolding decode decode_from decode_byte
read_pem = refl

ended : (w : Workshop Bytes) × (provision serial toy from_encoded_point tools order ≡ (ok tt, w))
ended =
    provision_completes serial toy toy-IsCrypto from_encoded_point tools bridge refl
      (λ artifact. refl) (λ s. refl) order issued last_day (7 ∷ []) refl created read_expiry in_time
      read_pem

provision-IsSaved_example : IsSaved toy serial from_encoded_point tools order ended.0
provision-IsSaved_example =
    provision-IsSaved toy serial from_encoded_point tools order ended.0 ended.1

-- Without pyserial.
abbrev bare : Order
bare = record order { has_serial = false }

no_serial : (provision serial toy from_encoded_point tools bare).0 ≡ err (runtime_error no_pyserial)
unfolding provision use_chip connect
no_serial = refl

provision_raised_example :
    IsConsistent serial toy from_encoded_point tools bare
      (provision serial toy from_encoded_point tools bare).1.artifacts
provision_raised_example =
    provision_raised serial toy from_encoded_point tools bare (runtime_error no_pyserial) no_serial

issued_here : issue_certificate toy order (new_root_ca toy 4) (7 ∷ []) ≡ ok (issued, 7 ∷ [])
unfolding issue_certificate create_certificate new_root_ca certificate_data encode_value encode
    encode_char verify_certificate is_certificate_expired strptime is_past returns_false decode
    decode_from decode_byte
issued_here = refl

issued-IsIssuable : IsIssuable issued
issued-IsIssuable = record {
  battery_id = ascii-IsScalar (66 ∷ []) (omega arith);
  manufacturer_id = ascii-IsScalar (77 ∷ []) (omega arith);
  issue_date = ascii-IsScalar issue (omega arith);
  expiry_date = ascii-IsScalar expiry (omega arith);
  public_key = omega arith;
  signature = omega arith;
}

abbrev trusting : VehicleNode ℕ
trusting = new_vehicle (some 4)

issued_accepted_example :
    (m : CanMessage) × (send_certificate triples issued ≡ ok m)
    × (receive_and_verify_certificate toy triples noon m trusting
        ≡ (ok true, record trusting { stored_certificate = some issued }))
issued_accepted_example =
    issued_accepted toy triples triples-IsJson order (new_root_ca toy 4) (7 ∷ []) issued (7 ∷ [])
      trusting issued_here issued-IsIssuable (unfold new_root_ca in refl)
