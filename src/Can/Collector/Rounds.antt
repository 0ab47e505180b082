-- ===== src/Can/Collector/Rounds.antt =====
-- When the collector emits a status, and which.
use batt_lock.Base.{
  ℕ, ◌==◌, if◌then◌else◌, ◌≡◌, ◌≢◌, ◌⊎◌, refl, Option, none, some, ok, arith, Bool-cases, inl, inr,
}
use batt_lock.Base.Float.{FloatOps}
use batt_lock.Can.Message.{CanMessage, battery_status_a, battery_status_b, battery_status_c}
use batt_lock.Can.Collector.{StatusCollector, new_collector, complete, feed, is_none}

-- A slot holds a frame of its own identifier, if any.
abbrev pub IsSlot : ℕ → Option CanMessage → Type 0
IsSlot id none = Unit
IsSlot id (some m) = m.arbitration_id ≡ id

-- A round is opened by its frame A: without one the other slots are empty.
pub record IsValid (s : StatusCollector) : Type 0 where
  pub slot_a : IsSlot battery_status_a s.a
  pub slot_b : IsSlot battery_status_b s.b
  pub slot_c : IsSlot battery_status_c s.c
  pub closed : s.a ≡ none → (s.b ≡ none) × (s.c ≡ none)

-- Neither A, B nor C.
abbrev pub IsOther : CanMessage → Type 0
IsOther m =
    (m.arbitration_id ≢ battery_status_a)
    × (m.arbitration_id ≢ battery_status_b)
    × (m.arbitration_id ≢ battery_status_c)

pub new_collector-IsValid : IsValid new_collector
new_collector-IsValid = record { slot_a = tt; slot_b = tt; slot_c = tt; closed = λ _. (refl, refl) }

-- The slots after a frame B or C: they stay as they are while no round is open.
unfoldable pub put_b : CanMessage → StatusCollector → StatusCollector
put_b m s = if is_none s.a then s else record s { b = some m }

unfoldable pub put_c : CanMessage → StatusCollector → StatusCollector
put_c m s = if is_none s.a then s else record s { c = some m }

pub put_b-IsValid :
    (m : CanMessage) (s : StatusCollector)
    → m.arbitration_id ≡ battery_status_b
    → IsValid s
    → IsValid (put_b m s)
unfolding put_b
put_b-IsValid m s e v = ground arith

pub put_c-IsValid :
    (m : CanMessage) (s : StatusCollector)
    → m.arbitration_id ≡ battery_status_c
    → IsValid s
    → IsValid (put_c m s)
unfolding put_c
put_c-IsValid m s e v = ground arith

unfoldable pub open_round : CanMessage → StatusCollector
open_round m = record { a = some m; b = none; c = none }

open_round-IsValid : (m : CanMessage) → m.arbitration_id ≡ battery_status_a → IsValid (open_round m)
unfolding open_round
open_round-IsValid m e = record { slot_a = e; slot_b = tt; slot_c = tt; closed = λ n. cc }

module _ {F : Type 0} (ops : FloatOps F) where
  complete_state :
      (s : StatusCollector) (a b c : Option CanMessage)
      → ((complete ops s a b c).1 ≡ s) ⊎ ((complete ops s a b c).1 ≡ new_collector)
  unfolding complete
  complete_state s none b c = inl refl
  complete_state s (some a) none c = inl refl
  complete_state s (some a) (some b) none = inl refl
  complete_state s (some a) (some b) (some c) = ground arith

  complete-IsValid : (s : StatusCollector) → IsValid s → IsValid (complete ops s s.a s.b s.c).1
  complete-IsValid s v = elim (complete_state s s.a s.b s.c) [
    | inl same ↦ rw same v
    | inr new ↦ rw new new_collector-IsValid
  ]

  -- What `feed` does for each kind of frame.
  pub data Fed (m : CanMessage) (s : StatusCollector) : Type 0 where
    starts : m.arbitration_id ≡ battery_status_a → feed ops m s ≡ (ok none, open_round m) → Fed m s
    brings_b :
        m.arbitration_id ≡ battery_status_b
        → feed ops m s ≡ complete ops (put_b m s) (put_b m s).a (put_b m s).b (put_b m s).c
        → Fed m s
    brings_c :
        m.arbitration_id ≡ battery_status_c
        → feed ops m s ≡ complete ops (put_c m s) (put_c m s).a (put_c m s).b (put_c m s).c
        → Fed m s
    passes : IsOther m → feed ops m s ≡ (ok none, s) → Fed m s

  pub feed-Fed : (m : CanMessage) (s : StatusCollector) → Fed m s
  unfolding feed open_round put_b put_c
  feed-Fed m s = elim (Bool-cases (m.arbitration_id == battery_status_a)) [
    | inl a ↦ starts (ground arith) (rw a)
    | inr na ↦ elim (Bool-cases (m.arbitration_id == battery_status_b)) [
      | inl b ↦ brings_b (ground arith) (rw (na, b))
      | inr nb ↦ elim (Bool-cases (m.arbitration_id == battery_status_c)) [
        | inl c ↦ brings_c (ground arith) (rw (na, nb, c))
        | inr nc ↦ passes (ground arith, ground arith, ground arith) (rw (na, nb, nc))
      ]
    ]
  ]

  -- Every call of `feed` keeps the collector valid, those that raise too.
  pub feed-IsValid : (m : CanMessage) (s : StatusCollector) → IsValid s → IsValid (feed ops m s).1
  feed-IsValid m s v = go (feed-Fed m s)
    where
      go : Fed m s → IsValid (feed ops m s).1
      go (starts a e) = rw e (open_round-IsValid m a)
      go (brings_b b e) = rw e (complete-IsValid (put_b m s) (put_b-IsValid m s b v))
      go (brings_c c e) = rw e (complete-IsValid (put_c m s) (put_c-IsValid m s c v))
      go (passes o e) = rw e v
