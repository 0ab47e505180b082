-- ===== src/Base/Errors.antt =====
-- Exceptions as values. One constructor for each class that the program raises or lets through,
-- with the message of the program's own `raise` statements as a reason.
use mathlib.Core.Path.{◌≡◌, refl}
use mathlib.Core.Bool.{Bool, true, false}

pub data Reason : Type 0 where
  payload_too_long no_frames inconsistent_id empty_data oversized_frame : Reason
  duplicate_sequence missing_sequence short_header incomplete_message : Reason
  byte_out_of_range raw_signature_length int_too_big message_length bad_date : Reason
  bad_hex bad_key bad_der bad_base64 unknown_field not_session_frame bad_json empty_sequence
        bad_point :
      Reason

pub data Fault : Type 0 where
  no_root_ca no_challenge_stored no_message_captured no_session_captured : Fault
  not_connected no_pyserial sign_failed sign_length public_key_failed genkey_failed
        self_check_failed :
      Fault

pub data Error : Type 0 where
  type_error index_error key_error attribute_error unicode_error overflow_error : Error
  struct_error invalid_signature connection_error assertion_error : Error
  value_error : Reason → Error
  runtime_error : Fault → Error
  -- No exception of Python's: a loop of the model has used up its fuel.
  no_fuel : Error

-- What a call returns or raises.
pub data Result {ℓ} (A : Type ℓ) : Type ℓ where
  err : Error → Result A
  ok : A → Result A

-- A raised exception ends the block.
infixl 5 ◌>>=◌ ◌>>◌
abbrev pub ◌>>=◌ {ℓ κ} : {A : Type ℓ} {B : Type κ} → Result A → (A → Result B) → Result B
err raised >>= next = err raised
ok returned >>= next = next returned

-- `if b: raise e`
abbrev pub raise_if : Bool → Error → Result (Unit {0})
raise_if true e = err e
raise_if false e = ok tt

-- A statement whose value is not used.
abbrev pub ◌>>◌ {ℓ} : {A : Type ℓ} → Result (Unit {0}) → Result A → Result A
statement >> block = statement >>= λ _. block

pub >>=-eq-ok {ℓ κ} :
    {A : Type ℓ} {B : Type κ} {y : B} (m : Result A) (next : A → Result B)
    → (m >>= next) ≡ ok y
    → (x : A) × (m ≡ ok x) × (next x ≡ ok y)
>>=-eq-ok (err raised) next done = cc
>>=-eq-ok (ok returned) next done = (returned, refl, done)
