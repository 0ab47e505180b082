-- ===== src/Tests/Frames.antt =====
-- Recorded frames of two attack modes, with cells that are single bytes, and what is logged of two frames.
use batt_lock.Base.{
  ℕ, ◌+◌, ◌/◌, ◌==◌, ◌≡◌, ◌≤◌, ◌⊎◌, ◌↔◌, ltb, refl, true, List, [], ◌∷◌, All, ok, err, value_error,
  bad_point, some,
}
use batt_lock.Base.Texts.{Text, codes}
use batt_lock.Base.Int.{pos, ◌+ℤ◌, ◌≤ℤ◌, ◌<ℤ◌}
use batt_lock.Can.Message.{CanMessage, battery_status, nonce_id}
use batt_lock.Crypto.Counters.{validate}
use batt_lock.Integration.Frames.{
  Row, mode_column, counter_column, cell, NumberOps, Verified, ModeResults, find_mode, put_mode,
  check_window, read_row, verify_frame, verify_rows, group,
}
use batt_lock.Integration.Frames.Modes.{rows_of, group-verify_rows}
use batt_lock.Integration.Frames.Window.{window, check_window_iff}
use batt_lock.Integration.Frames.Report.{
  ReportRow, max_of, described, sorted_modes, report_row, report_rows, written, verify_and_report,
  simulink_descriptions,
}
use batt_lock.Integration.Metrics.{new_metrics, ReportOps, report}
use batt_lock.Integration.Metrics.Report.{log_all, report-log_all}
use batt_lock.Tests.Floats.{decimals}

-- A text of one character is its code.
abbrev codes_of : NumberOps (ℕ × ℕ)
codes_of = record {
  float_of = λ t. elim t [ [] ↦ err (value_error bad_point) | c ∷ cs ↦ ok (c, 0) ];
  int_of = λ (n, k). ok (pos n);
}

abbrev row : ℕ → ℕ → Row
row mode counter mode_column = cell (mode ∷ [])
row mode counter counter_column = cell (counter ∷ [])
row mode counter _ = cell (0 ∷ [])

-- Mode 1 sends the counter 5 twice, mode 0 once.
abbrev rows : List Row
rows = row 1 5 ∷ row 0 5 ∷ row 1 5 ∷ []

abbrev out : ℕ → ℕ → Verified (ℕ × ℕ)
out mode replay = record {
  mode = pos mode;
  time = (0, 0);
  py_signature_ok = pos 0;
  py_replay = pos replay;
  py_injection = pos 0;
  py_auth = pos 0;
  model_auth = pos 0;
  model_replay = pos 0;
  model_injection = pos 0;
  model_soc = (0, 0);
}

abbrev outs : List (Verified (ℕ × ℕ))
outs = out 1 0 ∷ out 0 0 ∷ out 1 1 ∷ []

abbrev windows : ModeResults
windows = (pos 1, record { last_counter = pos 5 }) ∷ (pos 0, record { last_counter = pos 5 }) ∷ []

verified : verify_rows decimals codes_of rows [] ≡ ok (outs, windows)
unfolding verify_rows read_row verify_frame find_mode put_mode check_window validate ◌+ℤ◌
verified = refl

group-verify_rows_example :
    (own : ModeResults) × (verify_rows decimals codes_of (rows_of decimals codes_of (pos 1) rows) []
      ≡ ok (group (pos 1) outs, own))
group-verify_rows_example = group-verify_rows decimals codes_of (pos 1) rows windows outs verified

-- The counter 0 after it has come twice.
check_window_iff_example : ((check_window (pos 0) (window (pos 0 ∷ pos 0 ∷ []))).0 ≡ true) ↔ (
    (pos 0 ≤ℤ pos 0)
    × (All (λ k. k <ℤ pos 0) (pos 0 ∷ pos 0 ∷ []) ⊎ All (λ k. k ≤ℤ pos 0) (pos 0 ∷ pos 0 ∷ [])))
check_window_iff_example = check_window_iff (pos 0) (pos 0 ∷ pos 0 ∷ [])

abbrev reported : ℕ → ℕ → Text → ReportRow
reported mode replay description = record {
  mode = pos mode;
  description = description;
  py_auth = pos 0;
  model_auth = pos 0;
  py_replay = pos replay;
  model_replay = pos 0;
  py_injection = pos 0;
  model_injection = pos 0;
  agreement = replay == 0;
}

abbrev reports : List ReportRow
reports = reported 0 0 (codes "No attack (baseline)") ∷ reported 1 1 (codes "Replay attack") ∷ []

made :
    verify_and_report simulink_descriptions decimals codes_of rows
    ≡ record { frames_file = some outs; report = reports; ended = ok tt }
unfolding verify_and_report verify_rows read_row verify_frame find_mode put_mode check_window
    validate ◌+ℤ◌ written report_rows report_row sorted_modes max_of described group
made = refl

abbrev whole_numbers : ReportOps ℕ
whole_numbers = record {
  ratio = λ a b. a / b;
  add = λ a b. a + b;
  div_int = λ a n. a / n;
  gt = λ a b. ltb b a;
  zero_float = 0;
}

-- Two frames of one and three bytes.
abbrev logged : List (CanMessage × ℕ)
logged =
    (record { arbitration_id = nonce_id; content = 1 ∷ [] }, 7)
    ∷ (record { arbitration_id = battery_status; content = 1 ∷ 2 ∷ 3 ∷ [] }, 4)
    ∷ []

report-log_all_example :
    let r = report whole_numbers 50 (log_all logged new_metrics) in
    (r.total_messages ≡ 2)
    × (r.total_bytes ≡ 4)
    × All (λ n. (r.smallest_payload ≤ n) × (n ≤ r.largest_payload)) (1 ∷ 3 ∷ [])
report-log_all_example = report-log_all whole_numbers 50 logged
