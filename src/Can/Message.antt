-- ===== src/Can/Message.antt =====
-- `can/can_message.py` and `can/can_ids.py`.
use batt_lock.Base.{ℕ, List}

-- A Python `bytes`: its values are below 256 where a `bytes` was built by the program.
abbrev pub Bytes : Type 0
Bytes = List ℕ

-- `CANMessage`; its field `data` is called `content`.
pub record CanMessage : Type 0 where
  pub arbitration_id : ℕ
  pub content : Bytes

-- Authentication and session control frames.
abbrev pub auth_request_id : ℕ
auth_request_id = 0x100

abbrev pub nonce_id : ℕ
nonce_id = 0x101

abbrev pub signature_id : ℕ
signature_id = 0x102

abbrev pub auth_result_id : ℕ
auth_result_id = 0x103

abbrev pub certificate_id : ℕ
certificate_id = 0x104

abbrev pub session_id_id : ℕ
session_id_id = 0x105

-- Battery status frames; the old single frame has the identifier of `STATUS_A`.
abbrev pub battery_status_a : ℕ
battery_status_a = 0x200

abbrev pub battery_status_b : ℕ
battery_status_b = 0x201

abbrev pub battery_status_c : ℕ
battery_status_c = 0x202

abbrev pub battery_status : ℕ
battery_status = battery_status_a

abbrev pub can_max_data : ℕ
can_max_data = 8

-- Fault flags.
abbrev pub overvoltage : ℕ
overvoltage = 0x0001

abbrev pub undervoltage : ℕ
undervoltage = 0x0002

abbrev pub overcurrent : ℕ
overcurrent = 0x0004

abbrev pub overtemp : ℕ
overtemp = 0x0008

abbrev pub comm_error : ℕ
comm_error = 0x0010

abbrev pub auth_failure : ℕ
auth_failure = 0x0020
