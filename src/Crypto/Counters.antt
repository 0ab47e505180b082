-- ===== src/Crypto/Counters.antt =====
-- `crypto/counters/`: the sender's message counter and the receiver's replay protection.
pub mod Replay
use batt_lock.Base.{ℕ, zero, suc, ◌+◌, Bool, true, false, if◌then◌else◌, List, [], ◌∷◌}
use batt_lock.Base.Int.{ℤ, pos, leb_ℤ}

-- `MessageCounter`; a counter starts at 0 and only grows, so it is a natural number.
pub record MessageCounter : Type 0 where
  pub counter : ℕ

abbrev pub new_counter : MessageCounter
new_counter = record { counter = 0 }

unfoldable pub next : MessageCounter → ℕ × MessageCounter
next c = (c.counter + 1, record c { counter = c.counter + 1 })

unfoldable pub current : MessageCounter → ℕ
current c = c.counter

unfoldable pub reset : MessageCounter → MessageCounter
reset c = record c { counter = 0 }

-- `ReplayProtection`. The counter that is received is any int, and so is `last_counter`, which
-- callers set from outside.
pub record ReplayProtection : Type 0 where
  pub last_counter : ℤ

abbrev pub new_replay : ReplayProtection
new_replay = record { last_counter = pos 0 }

unfoldable pub validate : ℤ → ReplayProtection → Bool × ReplayProtection
validate received_counter r =
    if leb_ℤ received_counter r.last_counter
    then (false, r)
    else (true, record r { last_counter = received_counter })
