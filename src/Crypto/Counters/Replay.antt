-- ===== src/Crypto/Counters/Replay.antt =====
-- What the replay protection lets through, over any sequence of received counters.
use batt_lock.Base.{
  ℕ, zero, suc, ◌≡◌, ◌⊎◌, ◌+◌, refl, ap, true, false, if◌then◌else◌, List, [], ◌∷◌, arith,
  Bool-cases, inl, inr,
}
use batt_lock.Base.Int.{ℤ, pos, leb_ℤ, ◌≤ℤ◌, ◌<ℤ◌}
use batt_lock.Crypto.Counters.{ReplayProtection, validate, MessageCounter, next}

-- `validate` accepts exactly the counters above the last accepted one, and then remembers it; a
-- counter that it refuses changes nothing.
pub validate_cases :
    (n : ℤ) (r : ReplayProtection)
    → ((r.last_counter <ℤ n) × (validate n r ≡ (true, record { last_counter = n })))
      ⊎ ((n ≤ℤ r.last_counter) × (validate n r ≡ (false, r)))
unfolding validate
validate_cases n r = elim (Bool-cases (leb_ℤ n r.last_counter)) [
  | inl stale ↦ inr (ground arith, rw stale)
  | inr fresh ↦ inl (ground arith, rw fresh)
]

-- Counters in the order of arrival: those that were accepted, and the protection after all.
unfoldable pub accepted : List ℤ → ReplayProtection → List ℤ
accepted [] r = []
accepted (n ∷ ns) r =
    let (fresh, r') = validate n r in let rest = accepted ns r' in if fresh then n ∷ rest else rest

unfoldable pub after : List ℤ → ReplayProtection → ReplayProtection
after [] r = r
after (n ∷ ns) r = after ns (validate n r).1

-- Each above all before it.
abbrev pub IsRising : ℤ → List ℤ → Type 0
IsRising last [] = Unit
IsRising last (n ∷ ns) = (last <ℤ n) × IsRising n ns

-- Whatever arrives, in whatever order and however often, the accepted counters rise strictly from
-- the last accepted one: none is accepted twice, and none after a later one.
pub accepted-IsRising :
    (ns : List ℤ) (r : ReplayProtection) → IsRising r.last_counter (accepted ns r)
unfolding accepted validate
accepted-IsRising [] r = tt
accepted-IsRising (n ∷ ns) r = elim (Bool-cases (leb_ℤ n r.last_counter)) [
  | inl stale ↦ rw stale (accepted-IsRising ns r)
  | inr fresh ↦ rw fresh (ground arith, accepted-IsRising ns (record { last_counter = n }))
]

-- `k` calls of `next`, as the counters of the frames that are sent.
unfoldable pub sent : ℕ → MessageCounter → List ℤ
sent zero c = []
sent (suc k) c = let (n, c') = next c in pos n ∷ sent k c'

-- All the counters of a sender pass where no frame is lost, doubled or reordered, from any point
-- at which the two sides agree on the last one.
pub accepted-sent :
    (k : ℕ) (c : MessageCounter)
    → accepted (sent k c) (record { last_counter = pos c.counter }) ≡ sent k c
unfolding accepted sent validate next
accepted-sent zero c = refl
accepted-sent (suc k) c =
    let fresh : leb_ℤ (pos (c.counter + 1)) (pos c.counter) ≡ false = ground arith in
    rw fresh (ap (◌∷◌ (pos (c.counter + 1))) (accepted-sent k (record { counter = c.counter + 1 })))

validate-grows :
    (n : ℤ) (r : ReplayProtection)
    → (r.last_counter ≤ℤ (validate n r).1.last_counter) × (n ≤ℤ (validate n r).1.last_counter)
unfolding validate
validate-grows n r = (ground arith, ground arith)

after-grows : (ns : List ℤ) (r : ReplayProtection) → r.last_counter ≤ℤ (after ns r).last_counter
unfolding after
after-grows [] r = omega arith
after-grows (n ∷ ns) r = omega (arith, after-grows ns (validate n r).1, validate-grows n r)

-- A counter that has been received, whether it was accepted or not, is refused ever after.
pub validate_again :
    (n : ℤ) (ns : List ℤ) (r : ReplayProtection)
    → validate n (after ns (validate n r).1) ≡ (false, after ns (validate n r).1)
validate_again n ns r = elim (validate_cases n (after ns (validate n r).1)) [
  | inl (fresh, _) ↦ absurd (omega (arith, after-grows ns (validate n r).1, validate-grows n r))
  | inr (_, refused) ↦ refused
]
