-- ===== src/Integration/Frames/Report.antt =====
-- The report on the attack modes in `integration/verify_frames.py` and `simulink/verify_all_modes.py`, and
-- the two programs.
pub mod Keys
pub mod Known
pub mod Agreement
use batt_lock.Base.{
  ℕ, zero, suc, ◌≡◌, refl, ap, ◌∙◌, ◌==◌, ◌&&◌, Bool, true, false, if◌then◌else◌, List, [], ◌∷◌,
  ◌++◌, map, All, Option, none, some, Result, ok, err, ◌>>=◌, ◌>>◌, >>=-eq-ok, key_error,
  index_error, value_error, empty_sequence, arith,
}
use batt_lock.Base.Texts.{Text, codes}
use batt_lock.Base.Int.{ℤ, pos, negsuc, leb_ℤ, eq_ℤ}
use batt_lock.Base.Float.{FloatOps}
use batt_lock.Crypto.Counters.{ReplayProtection}
use batt_lock.Integration.Frames.{Row, NumberOps, Verified, ModeResults, verify_rows, group}

-- `max(…)`
max_from : ℤ → List ℤ → ℤ
max_from m [] = m
max_from m (n ∷ ns) = max_from (if leb_ℤ n m then m else n) ns

unfoldable pub max_of : List ℤ → Result ℤ
unfolding max_from
max_of [] = err (value_error empty_sequence)
max_of (n ∷ ns) = ok (max_from n ns)

insert_mode : ℤ → List ℤ → List ℤ
insert_mode m [] = m ∷ []
insert_mode m (n ∷ ns) = if leb_ℤ m n then m ∷ n ∷ ns else n ∷ insert_mode m ns

-- `sorted(mode_results)`
unfoldable pub sorted_modes : ModeResults → List ℤ
unfolding insert_mode
sorted_modes [] = []
sorted_modes ((m, r) ∷ rest) = insert_mode m (sorted_modes rest)

-- A dict whose keys are 0, 1, 2 and so on.
entry : ℕ → List Text → Result Text
entry n [] = err key_error
entry zero (t ∷ ts) = ok t
entry (suc n) (t ∷ ts) = entry n ts

unfoldable pub described : ℤ → List Text → Result Text
unfolding entry
described (pos n) ts = entry n ts
described (negsuc n) ts = err key_error

pub record ReportRow : Type 0 where
  pub mode : ℤ
  pub description : Text
  pub py_auth : ℤ
  pub model_auth : ℤ
  pub py_replay : ℤ
  pub model_replay : ℤ
  pub py_injection : ℤ
  pub model_injection : ℤ
  pub agreement : Bool

-- What a run leaves: the file of verified frames, the rows of the report, and how it ended.
pub record Outcome (F : Type 0) : Type 0 where
  pub frames_file : Option (List (Verified F))
  pub report : List ReportRow
  pub ended : Result (Unit {0})

module _ {F : Type 0} (descriptions : List Text) where
  unfoldable pub report_row : List (Verified F) → ℤ → Result ReportRow
  report_row outs mode = do
    let rows = group mode outs
    py_auth ← max_of (map (λ (r : Verified F). r.py_auth) rows)
    model_auth ← max_of (map (λ (r : Verified F). r.model_auth) rows)
    py_replay ← max_of (map (λ (r : Verified F). r.py_replay) rows)
    model_replay ← max_of (map (λ (r : Verified F). r.model_replay) rows)
    py_injection ← max_of (map (λ (r : Verified F). r.py_injection) rows)
    model_injection ← max_of (map (λ (r : Verified F). r.model_injection) rows)
    description ← described mode descriptions
    ok (record {
      mode = mode;
      description = description;
      py_auth = py_auth;
      model_auth = model_auth;
      py_replay = py_replay;
      model_replay = model_replay;
      py_injection = py_injection;
      model_injection = model_injection;
      agreement =
          eq_ℤ py_auth model_auth
          && eq_ℤ py_replay model_replay
          && eq_ℤ py_injection model_injection;
    })

  -- The rows are written one by one; the first mode that raises ends the report.
  unfoldable pub report_rows : List (Verified F) → List ℤ → List ReportRow × Result (Unit {0})
  report_rows outs [] = ([], ok tt)
  report_rows outs (m ∷ modes) =
      let (rows, ended) = report_rows outs modes in
      elim (report_row outs m) [ err e ↦ ([], err e) | ok row ↦ (row ∷ rows, ended) ]

  -- `out_rows[0]` needs a row.
  unfoldable pub written : List (Verified F) → List ReportRow × Result (Unit {0}) → Outcome F
  written [] (report, ended) = record { frames_file = none; report = []; ended = err index_error }
  written (out ∷ outs) (report, ended) = record {
    frames_file = some (out ∷ outs);
    report = report;
    ended = ended;
  }

  -- The file of verified frames is written before the report is made.
  unfoldable pub verify_and_report : FloatOps F → NumberOps F → List Row → Outcome F
  verify_and_report ops numbers rows = elim (verify_rows ops numbers rows []) [
    | err e ↦ record { frames_file = none; report = []; ended = err e }
    | ok (outs, modes) ↦ written outs (report_rows outs (sorted_modes modes))
  ]

abbrev pub simulink_descriptions : List Text
simulink_descriptions =
    codes "No attack (baseline)"
    ∷ codes "Replay attack"
    ∷ codes "Signature spoofing"
    ∷ codes "Voltage injection"
    ∷ codes "Signature dropping"
    ∷ codes "Spoof + voltage injection"
    ∷ []

abbrev pub all_descriptions : List Text
all_descriptions =
    simulink_descriptions
    ++ codes "MITM telemetry tamper"
      ∷ codes "Delay / reorder"
      ∷ codes "Fuzzing"
      ∷ codes "Session hijacking"
      ∷ codes "Threshold evasion"
      ∷ codes "Certificate tampering"
      ∷ []

module _ {F : Type 0} (ops : FloatOps F) (numbers : NumberOps F) where
  unfoldable pub verify_frames : List Row → Outcome F
  verify_frames rows = verify_and_report simulink_descriptions ops numbers rows

  unfoldable pub verify_all : List Row → List Row → Outcome F
  verify_all frames extra = verify_and_report all_descriptions ops numbers (frames ++ extra)
