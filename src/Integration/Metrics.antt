-- ===== src/Integration/Metrics.antt =====
-- `integration/metrics.py`, and the frames that `integration/can_logger.py` records. `L` is the type of a
-- float; the clock and the memory of the process are arguments.
pub mod Report
use batt_lock.Base.{
  ℕ, ◌+◌, leb, ltb, Bool, if◌then◌else◌, list_eq, List, [], ◌∷◌, ◌++◌, length, Option, none, some,
  Result, ok, err, key_error,
}
use batt_lock.Base.Texts.{Text}
use batt_lock.Can.Message.{CanMessage}

pub record MetricsCollector (L : Type 0) : Type 0 where
  -- The dict `metrics`: a timer's start, or how long it ran.
  pub timers : List (Text × L)
  pub total_messages : ℕ
  pub total_bytes : ℕ
  pub payload_sizes : List ℕ
  pub can_latencies : List L

abbrev pub new_metrics : {L : Type 0} → MetricsCollector L
new_metrics = record {
  timers = [];
  total_messages = 0;
  total_bytes = 0;
  payload_sizes = [];
  can_latencies = [];
}

module _ {L : Type 0} where
  unfoldable pub find_timer : Text → List (Text × L) → Option L
  find_timer name [] = none
  find_timer name ((key, t) ∷ timers) = if list_eq key name then some t else find_timer name timers

  unfoldable pub put_timer : Text → L → List (Text × L) → List (Text × L)
  put_timer name t [] = (name, t) ∷ []
  put_timer name t ((key, u) ∷ timers) =
      if list_eq key name then (key, t) ∷ timers else (key, u) ∷ put_timer name t timers

  unfoldable pub start : Text → L → MetricsCollector L → MetricsCollector L
  start name now m = record m { timers = put_timer name now m.timers }

  -- The second argument is the difference of two floats.
  unfoldable pub stop : Text → (L → L → L) → L → MetricsCollector L → Result (MetricsCollector L)
  stop name sub now m = elim (find_timer name m.timers) [
    | none ↦ err key_error
    | some started ↦ ok (record m { timers = put_timer name (sub now started) m.timers })
  ]

  unfoldable pub record_can : ℕ → L → MetricsCollector L → MetricsCollector L
  record_can payload_size latency m = record m {
    total_messages = m.total_messages + 1;
    total_bytes = m.total_bytes + payload_size;
    payload_sizes = m.payload_sizes ++ payload_size ∷ [];
    can_latencies = m.can_latencies ++ latency ∷ [];
  }

  -- `CANLogger.log_frame`, without the text that it logs: `frame.data` is an attribute of every frame.
  unfoldable pub log_frame : CanMessage → L → MetricsCollector L → MetricsCollector L
  unfolding record_can
  log_frame frame latency m = record_can (length frame.content) latency m

-- The floats of the report.
pub record ReportOps (L : Type 0) : Type 0 where
  -- `a / b` of two ints
  pub ratio : ℕ → ℕ → L
  pub add : L → L → L
  -- A float divided by an int
  pub div_int : L → ℕ → L
  pub gt : L → L → Bool
  -- The int 0 where a float is expected
  pub zero_float : L

abbrev pub sum : List ℕ → ℕ
sum [] = 0
sum (n ∷ ns) = n + sum ns

abbrev pub largest : ℕ → List ℕ → ℕ
largest m [] = m
largest m (n ∷ ns) = largest (if ltb m n then n else m) ns

abbrev pub smallest : ℕ → List ℕ → ℕ
smallest m [] = m
smallest m (n ∷ ns) = smallest (if ltb n m then n else m) ns

pub record MetricsReport (L : Type 0) : Type 0 where
  pub timers : List (Text × L)
  pub total_messages : ℕ
  pub total_bytes : ℕ
  pub average_payload : L
  pub largest_payload : ℕ
  pub smallest_payload : ℕ
  pub average_latency_ms : L
  pub max_latency_ms : L
  pub min_latency_ms : L
  pub memory_mb : L

-- `f(xs) if xs else d`
abbrev pub of_some : {A B : Type 0} → (A → List A → B) → B → List A → B
of_some f d [] = d
of_some f d (x ∷ xs) = f x xs

module _ {L : Type 0} (ops : ReportOps L) where
  sum_floats : L → List L → L
  sum_floats s [] = s
  sum_floats s (x ∷ xs) = sum_floats (ops.add s x) xs

  max_float : L → List L → L
  max_float m [] = m
  max_float m (x ∷ xs) = max_float (if ops.gt x m then x else m) xs

  min_float : L → List L → L
  min_float m [] = m
  min_float m (x ∷ xs) = min_float (if ops.gt m x then x else m) xs

  -- The last argument but one is the memory of the process in MB.
  unfoldable pub report : L → MetricsCollector L → MetricsReport L
  unfolding sum_floats max_float min_float
  report memory m = record {
    timers = m.timers;
    total_messages = m.total_messages;
    total_bytes = m.total_bytes;
    average_payload =
        of_some (λ n ns. ops.ratio (sum (n ∷ ns)) (length (n ∷ ns))) ops.zero_float m.payload_sizes;
    largest_payload = of_some largest 0 m.payload_sizes;
    smallest_payload = of_some smallest 0 m.payload_sizes;
    average_latency_ms =
        of_some (λ x xs. ops.div_int (sum_floats ops.zero_float (x ∷ xs)) (length (x ∷ xs)))
          ops.zero_float m.can_latencies;
    max_latency_ms = of_some max_float ops.zero_float m.can_latencies;
    min_latency_ms = of_some min_float ops.zero_float m.can_latencies;
    memory_mb = memory;
  }
