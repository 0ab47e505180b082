-- ===== src/Tests/Certificates.antt =====
-- Signatures and certificates in the scheme of `Tests.Crypto`.
use batt_lock.Base.{◌≡◌, refl, true, false, [], ◌∷◌, ◌++◌, ◌↔◌, ℕ, none, ok, length, arith}
use batt_lock.Base.Texts.{Text, codes}
use batt_lock.Base.Utf8.{encode, encode_char}
use batt_lock.Base.Json.{text}
use batt_lock.Base.Dates.{
  Date, Moment, strptime, is_past, days_before, days_after, next_day, previous_day, strftime,
}
use batt_lock.Can.Message.{Bytes}
use batt_lock.Crypto.Models.{Certificate}
use batt_lock.Crypto.Signatures.{der_to_raw, raw_to_der, returns_false}
use batt_lock.Crypto.Counters.{new_replay}
use batt_lock.Crypto.Api.{CryptoApi, sign_nonce, get_public_key_bytes, api_verify_signature}
use batt_lock.Crypto.Api.FirstUse.{api_verify_signature-sign_nonce}
use batt_lock.Crypto.Signatures.Raw.{raw_to_der-der_to_raw}
use batt_lock.Crypto.Certificates.{
  new_root_ca, create_certificate, certificate_data, encode_value, verify_certificate,
  is_certificate_expired,
}
use batt_lock.Crypto.Certificates.Verification.{
  IsAccepted, verify_certificate_iff, verify_certificate_expired, verify_certificate_boundary,
}
use batt_lock.Base.Dates.Calendar.{IsDay, first_days-IsDay}
use batt_lock.Attacks.Certificates.{create_expired_certificate}
use batt_lock.Attacks.Certificates.Dated.{create_expired_certificate_refused}
use batt_lock.Tests.Crypto.{toy, toy-IsCrypto}

raw_to_der-der_to_raw_example :
    (raw : Bytes) × (der_to_raw toy (5 ∷ 300 ∷ []) ≡ ok raw)
    × (length raw ≡ 64)
    × (raw_to_der toy raw ≡ ok (5 ∷ 300 ∷ []))
raw_to_der-der_to_raw_example =
    raw_to_der-der_to_raw toy toy-IsCrypto 5 300 (omega arith) (omega arith)

-- A module that is not configured.
abbrev unset : CryptoApi ℕ
unset = record { key_manager = none; root_ca_public_key = none; replay = new_replay }

api_verify_signature-sign_nonce_example :
    (raw : Bytes) × (key_bytes : Bytes) × ((sign_nonce toy 3 9 (1 ∷ 2 ∷ []) none unset).0 ≡ ok raw)
    × ((get_public_key_bytes toy 5 none (sign_nonce toy 3 9 (1 ∷ 2 ∷ []) none unset).1).0
        ≡ ok key_bytes)
    × (length raw ≡ 64)
    × (api_verify_signature toy (1 ∷ 2 ∷ []) raw key_bytes ≡ ok true)
api_verify_signature-sign_nonce_example =
    api_verify_signature-sign_nonce toy toy-IsCrypto 3 9 5 (1 ∷ 2 ∷ []) unset refl
      (λ e. omega (arith, e))

-- 2026-01-01 and 2031-01-01.
abbrev pub issue : Text
issue = 50 ∷ 48 ∷ 50 ∷ 54 ∷ 45 ∷ 48 ∷ 49 ∷ 45 ∷ 48 ∷ 49 ∷ []

abbrev pub expiry : Text
expiry = 50 ∷ 48 ∷ 51 ∷ 49 ∷ 45 ∷ 48 ∷ 49 ∷ 45 ∷ 48 ∷ 49 ∷ []

abbrev pub last_day : Date
last_day = record { year = 2031; month = 1; day = 1 }

pub read_expiry : strptime expiry ≡ ok last_day
unfolding strptime
read_expiry = refl

-- Noon of 2027-06-15, and a microsecond into the last day.
abbrev pub noon : Moment
noon = record { date = record { year = 2027; month = 6; day = 15 }; since_midnight = 43200000000 }

abbrev too_late : Moment
too_late = record { date = last_day; since_midnight = 1 }

pub in_time : is_past noon last_day ≡ false
unfolding is_past
in_time = refl

past : is_past too_late last_day ≡ true
unfolding is_past
past = refl

-- The signature is the key 4 and the sum of the fields.
abbrev pub issued : Certificate
issued = record {
  battery_id = text (66 ∷ []);
  manufacturer_id = text (77 ∷ []);
  public_key = 7 ∷ [];
  issue_date = text issue;
  expiry_date = text expiry;
  signature = toy.sign 0 4 (66 ∷ 77 ∷ 7 ∷ (issue ++ expiry));
}

pub created :
    create_certificate toy 0 (new_root_ca toy 4) (66 ∷ []) (77 ∷ []) (7 ∷ []) issue expiry
    ≡ ok issued
unfolding create_certificate new_root_ca certificate_data encode_value encode encode_char
created = refl

accepted_here : verify_certificate toy noon issued 4 ≡ ok true
unfolding verify_certificate is_certificate_expired strptime is_past certificate_data encode_value
    encode encode_char returns_false
accepted_here = refl

verify_certificate_iff_example :
    (verify_certificate toy noon issued 4 ≡ ok true) ↔ IsAccepted toy noon issued 4
verify_certificate_iff_example = verify_certificate_iff toy noon issued 4

verify_certificate_expired_example : verify_certificate toy too_late issued 4 ≡ ok false
verify_certificate_expired_example =
    verify_certificate_expired toy too_late issued 4 expiry last_day refl read_expiry past

verify_certificate_boundary_example :
    verify_certificate toy noon
      (record issued { battery_id = text (66 ∷ 77 ∷ []); manufacturer_id = text (78 ∷ []) })
      4
    ≡ verify_certificate toy noon
        (record issued { battery_id = text (66 ∷ []); manufacturer_id = text (77 ∷ 78 ∷ []) })
        4
verify_certificate_boundary_example =
    verify_certificate_boundary toy noon issued 4 (66 ∷ []) (77 ∷ []) (78 ∷ [])

-- The days around noon, over the end of a leap year.
days_around :
    (days_before 1 noon ≡ ok (record { year = 2027; month = 6; day = 14 }))
    × (days_before 365 noon ≡ ok (record { year = 2026; month = 6; day = 15 }))
    × (days_after 365 noon ≡ ok (record { year = 2028; month = 6; day = 14 }))
unfolding days_before days_after next_day previous_day
days_around = (refl, refl, refl)

-- A certificate with the dates given.
abbrev dated : Text → Text → Certificate
dated from until = record issued {
  issue_date = text from;
  expiry_date = text until;
  signature = toy.sign 0 4 (66 ∷ 77 ∷ 7 ∷ (from ++ until));
}

noon-IsDay : IsDay noon.date
noon-IsDay = first_days-IsDay noon.date (omega arith) (omega arith) (omega arith) (omega arith)

created_expired :
    create_expired_certificate toy noon 0 (new_root_ca toy 4) (66 ∷ []) (77 ∷ []) (7 ∷ [])
    ≡ ok (dated (codes "2026-06-15") (codes "2027-06-14"))
unfolding create_expired_certificate days_before previous_day strftime create_certificate
    new_root_ca certificate_data encode_value encode encode_char
created_expired = refl

create_expired_certificate_refused_example :
    verify_certificate toy noon (dated (codes "2026-06-15") (codes "2027-06-14")) 4 ≡ ok false
create_expired_certificate_refused_example =
    create_expired_certificate_refused toy noon noon 0 (new_root_ca toy 4) (66 ∷ []) (77 ∷ [])
      (7 ∷ []) (dated (codes "2026-06-15") (codes "2027-06-14")) 4 noon-IsDay refl created_expired
