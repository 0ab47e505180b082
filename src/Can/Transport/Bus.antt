-- ===== src/Can/Transport/Bus.antt =====
-- The bus is a queue: what is sent comes out once, in the order of sending.
use batt_lock.Base.{
  ℕ, zero, suc, ◌≡◌, refl, sym, ap, ◌∙◌, List, [], ◌∷◌, ◌++◌, length, append_assoc, append-nil,
  Option, none, some,
}
use batt_lock.Can.Message.{CanMessage}
use batt_lock.Can.Transport.{CanBus, send, receive, new_bus}

-- Calls of `send` in a row.
pub send_all : List CanMessage → CanBus → CanBus
send_all [] bus = bus
send_all (m ∷ ms) bus = send_all ms (send m bus)

-- `n` calls of `receive` in a row, with what each returned.
pub receive_all : ℕ → CanBus → List (Option CanMessage) × CanBus
receive_all zero bus = ([], bus)
receive_all (suc n) bus =
    let (m, bus') = receive bus in let (ms, bus'') = receive_all n bus' in (m ∷ ms, bus'')

abbrev somes : List CanMessage → List (Option CanMessage)
somes [] = []
somes (m ∷ ms) = some m ∷ somes ms

queue-send_all : (ms : List CanMessage) (bus : CanBus) → (send_all ms bus).queue ≡ bus.queue ++ ms
unfolding send_all send
queue-send_all [] bus = sym (append-nil bus.queue)
queue-send_all (m ∷ ms) bus = queue-send_all ms (send m bus) ∙ append_assoc bus.queue (m ∷ []) ms

receive_all-queue :
    (ms rest : List CanMessage)
    → receive_all (length ms) (record { queue = ms ++ rest }) ≡ (somes ms, record { queue = rest })
unfolding receive_all receive
receive_all-queue [] rest = refl
receive_all-queue (m ∷ ms) rest = rw (receive_all-queue ms rest)

-- Frames that are sent in a row behind `waiting` frames come out in that order, each once,
-- after the waiting ones, and one more `receive` returns nothing.
pub bus_fifo :
    (waiting ms : List CanMessage)
    → let (received, bus) =
        receive_all (length (waiting ++ ms)) (send_all ms (record { queue = waiting })) in
      (received ≡ somes (waiting ++ ms)) × (receive bus ≡ (none, new_bus))
unfolding receive
bus_fifo waiting ms =
    let sent : send_all ms (record { queue = waiting }) ≡ record { queue = (waiting ++ ms) ++ [] } =
      ap (λ (q : List CanMessage). record { queue = q })
        (queue-send_all ms (record { queue = waiting }) ∙ sym (append-nil (waiting ++ ms))) in
    rw (sent, receive_all-queue (waiting ++ ms) []) (refl, refl)
