-- ===== src/Attacks/Telemetry.antt =====
-- The attacks that make status frames: `attacks/injection_attack.py`, `evasion_attack.py` and
-- `mitm_attack.py`.
use batt_lock.Base.{Option, none, some, Result, err, ◌>>=◌, runtime_error, no_message_captured}
use batt_lock.Base.Int.{ℤ, pos}
use batt_lock.Base.Float.{FloatOps}
use batt_lock.Can.Message.{CanMessage}
use batt_lock.Can.Status.{BatteryStatus, encode_status, decode_status}
use batt_lock.Attacks.Bus.{Capture}

-- `x if x is not None else y`
abbrev pub or_else : {A : Type 0} → Option A → A → A
or_else none y = y
or_else (some x) y = x

module _ {F : Type 0} (ops : FloatOps F) where
  abbrev pub fake_status : BatteryStatus F
  fake_status = record {
    counter = pos 999;
    voltage = ops.literal 999 0;
    current = ops.literal 999 0;
    temperature = ops.literal 999 0;
    soc = pos 100;
    soh = pos 100;
    fault_flags = pos 0;
  }

  unfoldable pub inject_fake_status : Result CanMessage
  inject_fake_status = encode_status ops fake_status

  -- 100.0, 500.0 and 150.0, each times a factor.
  abbrev pub evasive_status : F → F → F → ℤ → BatteryStatus F
  evasive_status voltage_factor current_factor temperature_factor counter = record {
    counter = counter;
    voltage = ops.mul (ops.literal 100 0) voltage_factor;
    current = ops.mul (ops.literal 500 0) current_factor;
    temperature = ops.mul (ops.literal 150 0) temperature_factor;
    soc = pos 85;
    soh = pos 98;
    fault_flags = pos 0;
  }

  unfoldable pub inject_evasive_status : F → F → F → ℤ → Result CanMessage
  inject_evasive_status voltage_factor current_factor temperature_factor counter =
      encode_status ops (evasive_status voltage_factor current_factor temperature_factor counter)

  abbrev pub flagged_status : ℤ → ℤ → BatteryStatus F
  flagged_status fault_flags counter = record {
    counter = counter;
    voltage = ops.literal 512 1;
    current = ops.literal 124 1;
    temperature = ops.literal 300 1;
    soc = pos 85;
    soh = pos 98;
    fault_flags = fault_flags;
  }

  unfoldable pub inject_fault_flag_evasion : ℤ → ℤ → Result CanMessage
  inject_fault_flag_evasion fault_flags counter =
      encode_status ops (flagged_status fault_flags counter)

  -- The arguments of `MitMAttack.modify` that are None keep a field as it is.
  pub record Changes : Type 0 where
    pub voltage : Option F
    pub current : Option F
    pub temperature : Option F
    pub soc : Option ℤ
    pub soh : Option ℤ
    pub fault_flags : Option ℤ

  abbrev pub tampered : Changes → BatteryStatus F → BatteryStatus F
  tampered changes status = record {
    counter = status.counter;
    voltage = or_else changes.voltage status.voltage;
    current = or_else changes.current status.current;
    temperature = or_else changes.temperature status.temperature;
    soc = or_else changes.soc status.soc;
    soh = or_else changes.soh status.soh;
    fault_flags = or_else changes.fault_flags status.fault_flags;
  }

  unfoldable pub modify : Changes → Capture → Result CanMessage
  modify changes attack = elim attack.captured_message [
    | none ↦ err (runtime_error no_message_captured)
    | some message ↦ do
      status ← decode_status ops message
      encode_status ops (tampered changes status)
  ]

unfoldable pub forward : CanMessage → CanMessage
forward message = message
