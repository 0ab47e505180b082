-- ===== src/Integration/Metrics/Report.antt =====
-- What the report says of the frames that were recorded.
use batt_lock.Base.{
  ℕ, suc, ◌+◌, ◌≤◌, ◌≡◌, refl, ap, sym, ◌∙◌, Bool-cases, inl, inr, ltb, if◌then◌else◌, list_eq,
  List, [], ◌∷◌, ◌++◌, map, All, length, length-append, append_assoc, append-nil, list_eq_refl,
  some, ok, arith,
}
use batt_lock.Base.Texts.{Text}
use batt_lock.Can.Message.{CanMessage}
use batt_lock.Integration.Metrics.{
  MetricsCollector, new_metrics, find_timer, put_timer, start, stop, record_can, log_frame,
  ReportOps, sum, largest, smallest, of_some, report,
}

sum-append : (xs ys : List ℕ) → sum (xs ++ ys) ≡ sum xs + sum ys
sum-append [] ys = omega arith
sum-append (x ∷ xs) ys = omega (arith, sum-append xs ys)

largest_bounds : (m : ℕ) (ns : List ℕ) → (m ≤ largest m ns) × All (λ n. n ≤ largest m ns) ns
largest_bounds m [] = (omega arith, tt)
largest_bounds m (n ∷ ns) =
    let (here, rest) = largest_bounds (if ltb m n then n else m) ns in
    (ground arith, (ground arith, rest))

smallest_bounds : (m : ℕ) (ns : List ℕ) → (smallest m ns ≤ m) × All (λ n. smallest m ns ≤ n) ns
smallest_bounds m [] = (omega arith, tt)
smallest_bounds m (n ∷ ns) =
    let (here, rest) = smallest_bounds (if ltb n m then n else m) ns in
    (ground arith, (ground arith, rest))

both : (P Q : ℕ → Type 0) (ns : List ℕ) → All P ns → All Q ns → All (λ n. P n × Q n) ns
both P Q [] p q = tt
both P Q (n ∷ ns) p q = ((p.0, q.0), both P Q ns p.1 q.1)

within : (ns : List ℕ) → All (λ n. (of_some smallest 0 ns ≤ n) × (n ≤ of_some largest 0 ns)) ns
within [] = tt
within (n ∷ ns) =
    let (low, lows) = smallest_bounds n ns in
    let (high, highs) = largest_bounds n ns in
    ((low, high), both (λ k. smallest n ns ≤ k) (λ k. k ≤ largest n ns) ns lows highs)

module _ {L : Type 0} where
  pub record IsTallied (m : MetricsCollector L) : Type 0 where
    pub messages : m.total_messages ≡ length m.payload_sizes
    pub latencies : m.total_messages ≡ length m.can_latencies
    pub bytes : m.total_bytes ≡ sum m.payload_sizes

  record_can-IsTallied :
      (n : ℕ) (latency : L) (m : MetricsCollector L)
      → IsTallied m
      → IsTallied (record_can n latency m)
  unfolding record_can
  record_can-IsTallied n latency m t = record {
    messages = omega (arith, length-append m.payload_sizes (n ∷ []), t.messages);
    latencies = omega (arith, length-append {0} m.can_latencies (latency ∷ []), t.latencies);
    bytes = omega (arith, sum-append m.payload_sizes (n ∷ []), t.bytes);
  }

  -- Frames that are logged one after another, each with its latency.
  unfoldable pub log_all : List (CanMessage × L) → MetricsCollector L → MetricsCollector L
  log_all [] m = m
  log_all ((frame, latency) ∷ frames) m = log_all frames (log_frame frame latency m)

  abbrev pub sizes : List (CanMessage × L) → List ℕ
  sizes frames = map (λ (f : CanMessage × L). length f.0.content) frames

  log_all-IsTallied :
      (frames : List (CanMessage × L)) (m : MetricsCollector L)
      → IsTallied m
      → IsTallied (log_all frames m)
        × ((log_all frames m).payload_sizes ≡ m.payload_sizes ++ sizes frames)
  unfolding log_all log_frame
  log_all-IsTallied [] m t = (t, sym (append-nil m.payload_sizes))
  log_all-IsTallied ((frame, latency) ∷ frames) m t =
      let n = length frame.content in
      let (tallied, e) =
        log_all-IsTallied frames (record_can n latency m) (record_can-IsTallied n latency m t) in
      (tallied, e ∙ unfold record_can in append_assoc m.payload_sizes (n ∷ []) (sizes frames))

  length-sizes : (frames : List (CanMessage × L)) → length (sizes frames) ≡ length frames
  length-sizes [] = refl
  length-sizes (f ∷ frames) = ap suc (length-sizes frames)

  -- After any frames have been logged, the report counts them and their bytes, and every one of them has a
  -- size between the smallest and the largest that it names.
  pub report-log_all :
      (ops : ReportOps L) (memory : L) (frames : List (CanMessage × L))
      → let r = report ops memory (log_all frames new_metrics) in
        (r.total_messages ≡ length frames)
        × (r.total_bytes ≡ sum (sizes frames))
        × All (λ n. (r.smallest_payload ≤ n) × (n ≤ r.largest_payload)) (sizes frames)
  unfolding report
  report-log_all ops memory frames =
      let (tallied, e) =
        log_all-IsTallied frames new_metrics
          (record { messages = refl; latencies = refl; bytes = refl }) in
      (
        tallied.messages ∙ ap (length {A = ℕ}) e ∙ length-sizes frames,
        tallied.bytes ∙ ap sum e,
        rw e (within (sizes frames)),
      )

  find_timer-put_timer :
      (name : Text) (t : L) (timers : List (Text × L))
      → find_timer name (put_timer name t timers) ≡ some t
  unfolding find_timer put_timer
  find_timer-put_timer name t [] = rw (list_eq_refl name) refl
  find_timer-put_timer name t ((key, u) ∷ timers) = elim (Bool-cases (list_eq key name)) [
    | inl same ↦ rw (same, same) refl
    | inr other ↦ rw (other, other) (find_timer-put_timer name t timers)
  ]

  -- A timer that was started can be stopped, and then holds the difference of the two readings of the clock,
  -- whatever was measured under its name or others before.
  pub stop-start :
      (name : Text) (sub : L → L → L) (started now : L) (m : MetricsCollector L)
      → (m' : MetricsCollector L) × (stop name sub now (start name started m) ≡ ok m')
        × (find_timer name m'.timers ≡ some (sub now started))
  unfolding stop start
  stop-start name sub started now m =
      let running = put_timer name started m.timers in
      (
        record m { timers = put_timer name (sub now started) running },
        rw (stop, find_timer-put_timer name started m.timers) refl,
        find_timer-put_timer name (sub now started) running,
      )
