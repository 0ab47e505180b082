-- ===== src/Integration/Frames.antt =====
-- `integration/verify_frames.py` and `simulink/verify_all_modes.py`: frames that were recorded, one row of a
-- CSV file each, are checked again, every attack mode with a replay window of its own. The rows are what
-- `csv.DictReader` yields; what the files would hold is returned.
pub mod Modes
pub mod Window
pub mod Report
use batt_lock.Base.{
  ℕ, ◌==◌, ◌&&◌, Bool, true, false, if◌then◌else◌, List, [], ◌∷◌, ◌++◌, map, Option, none, some,
  Result, ok, err, ◌>>=◌, key_error, type_error, index_error, value_error, empty_sequence,
}
use batt_lock.Base.Texts.{Text, codes}
use batt_lock.Base.Int.{ℤ, pos, negsuc, leb_ℤ, eq_ℤ, ◌+ℤ◌}
use batt_lock.Base.Float.{FloatOps}
use batt_lock.Crypto.Counters.{ReplayProtection, new_replay, validate}

pub data Column : Type 0 where
  mode_column time_column nonce_column signature_column counter_column : Column
  voltage_column model_auth_column model_replay_column model_injection_column : Column
  model_soc_column : Column

-- A column that the header does not name, one that the row is too short for, or a text.
pub data Cell : Type 0 where
  unnamed short : Cell
  cell : Text → Cell

abbrev pub Row : Type 0
Row = Column → Cell

-- `float(text)` and `int(x)`.
pub record NumberOps (F : Type 0) : Type 0 where
  pub float_of : Text → Result F
  pub int_of : F → Result ℤ

-- What is read of a row.
pub record Frame (F : Type 0) : Type 0 where
  pub mode : ℤ
  pub nonce : ℤ
  pub signature : ℤ
  pub counter : ℤ
  pub voltage : F
  pub time : F
  pub model_auth : ℤ
  pub model_replay : ℤ
  pub model_injection : ℤ
  pub model_soc : F

-- A row of the file that is written.
pub record Verified (F : Type 0) : Type 0 where
  pub mode : ℤ
  pub time : F
  pub py_signature_ok : ℤ
  pub py_replay : ℤ
  pub py_injection : ℤ
  pub py_auth : ℤ
  pub model_auth : ℤ
  pub model_replay : ℤ
  pub model_injection : ℤ
  pub model_soc : F

-- `mode_results`
abbrev pub ModeResults : Type 0
ModeResults = List (ℤ × ReplayProtection)

-- `mode_results.setdefault(mode, ReplayProtection())`, and the change of what that returns.
unfoldable pub find_mode : ℤ → ModeResults → ReplayProtection
find_mode m [] = new_replay
find_mode m ((n, r) ∷ rest) = if eq_ℤ n m then r else find_mode m rest

unfoldable pub put_mode : ℤ → ReplayProtection → ModeResults → ModeResults
put_mode m r [] = (m, r) ∷ []
put_mode m r ((n, s) ∷ rest) = if eq_ℤ n m then (n, r) ∷ rest else (n, s) ∷ put_mode m r rest

-- A window whose last counter is 0 is set to -1, and then the counter is checked.
unfoldable pub check_window : ℤ → ReplayProtection → Bool × ReplayProtection
check_window counter replay =
    validate counter (
      if eq_ℤ replay.last_counter (pos 0)
      then record replay { last_counter = negsuc 0 }
      else replay)

-- SIGNATURE_BIAS
abbrev pub signature_bias : ℤ
signature_bias = pos 100

abbrev pub bit : Bool → ℤ
bit b = if b then pos 1 else pos 0

-- The results of one mode.
unfoldable pub group : {F : Type 0} → ℤ → List (Verified F) → List (Verified F)
group m [] = []
group m (out ∷ outs) = if eq_ℤ out.mode m then out ∷ group m outs else group m outs

module _ {F : Type 0} (ops : FloatOps F) (numbers : NumberOps F) where
  float_cell : Column → Row → Result F
  float_cell column row = elim (row column) [
    | unnamed ↦ err key_error
    | short ↦ err type_error
    | cell t ↦ numbers.float_of t
  ]

  int_cell : Column → Row → Result ℤ
  unfolding float_cell
  int_cell column row = do x ← float_cell column row; numbers.int_of x

  -- The cells in the order in which they are read.
  unfoldable pub read_row : Row → Result (Frame F)
  unfolding int_cell
  read_row row = do
    mode ← int_cell mode_column row
    nonce ← int_cell nonce_column row
    signature ← int_cell signature_column row
    counter ← int_cell counter_column row
    voltage ← float_cell voltage_column row
    time ← float_cell time_column row
    model_auth ← int_cell model_auth_column row
    model_replay ← int_cell model_replay_column row
    model_injection ← int_cell model_injection_column row
    model_soc ← float_cell model_soc_column row
    ok (record {
      mode = mode;
      nonce = nonce;
      signature = signature;
      counter = counter;
      voltage = voltage;
      time = time;
      model_auth = model_auth;
      model_replay = model_replay;
      model_injection = model_injection;
      model_soc = model_soc;
    })

  -- VOLTAGE_THRESHOLD is 100.0.
  unfoldable pub verify_frame : Frame F → ModeResults → Verified F × ModeResults
  verify_frame frame modes =
      let (replay_ok, replay) = check_window frame.counter (find_mode frame.mode modes) in
      let sig_ok = eq_ℤ frame.signature (frame.nonce +ℤ signature_bias) in
      (
        record {
          mode = frame.mode;
          time = frame.time;
          py_signature_ok = bit sig_ok;
          py_replay = if replay_ok then pos 0 else pos 1;
          py_injection = bit (ops.gt frame.voltage (ops.literal 100 0));
          py_auth = bit sig_ok;
          model_auth = frame.model_auth;
          model_replay = frame.model_replay;
          model_injection = frame.model_injection;
          model_soc = frame.model_soc;
        },
        put_mode frame.mode replay modes,
      )

  unfoldable pub verify_rows : List Row → ModeResults → Result (List (Verified F) × ModeResults)
  verify_rows [] modes = ok ([], modes)
  verify_rows (row ∷ rows) modes = do
    frame ← read_row row
    let (out, modes') = verify_frame frame modes
    (outs, modes'') ← verify_rows rows modes'
    ok (out ∷ outs, modes'')
