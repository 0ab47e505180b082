-- ===== src/Simulink/Rows.antt =====
-- `simulink/generate_extra_modes.py`: a row of the file that it writes.
use batt_lock.Base.{ℕ}
use batt_lock.Base.Int.{ℤ, pos}
use batt_lock.Base.Float.{FloatOps}
use batt_lock.Can.Status.{BatteryStatus}

pub record ModeRow (F : Type 0) : Type 0 where
  pub mode : ℕ
  pub time : F
  pub nonce : ℕ
  pub signature : ℕ
  pub counter : ℤ
  pub voltage : F
  pub model_state : ℕ
  pub model_auth : ℕ
  pub model_replay : ℕ
  pub model_injection : ℕ
  pub model_soc : ℕ

-- `x + y`, and `round(x, 6)`.
pub record TimeOps (F : Type 0) : Type 0 where
  pub add : F → F → F
  pub round_6 : F → F

module _ {F : Type 0} where
  -- Nonce and signature are 0 in every row.
  abbrev pub status_to_row : TimeOps F → ℕ → F → BatteryStatus F → ℕ → ℕ → ℕ → ℕ → ℕ → ModeRow F
  status_to_row clock mode time status model_state model_auth model_replay model_injection
        model_soc =
      record {
        mode = mode;
        time = clock.round_6 time;
        nonce = 0;
        signature = 0;
        counter = status.counter;
        voltage = status.voltage;
        model_state = model_state;
        model_auth = model_auth;
        model_replay = model_replay;
        model_injection = model_injection;
        model_soc = model_soc;
      }

  -- A row whose counter and voltage are 0.
  abbrev pub plain_row : FloatOps F → TimeOps F → ℕ → F → ℕ → ℕ → ℕ → ℕ → ℕ → ModeRow F
  plain_row ops clock mode time model_state model_auth model_replay model_injection model_soc =
      record {
        mode = mode;
        time = clock.round_6 time;
        nonce = 0;
        signature = 0;
        counter = pos 0;
        voltage = ops.literal 0 0;
        model_state = model_state;
        model_auth = model_auth;
        model_replay = model_replay;
        model_injection = model_injection;
        model_soc = model_soc;
      }
