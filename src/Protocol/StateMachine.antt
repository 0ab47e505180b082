-- ===== src/Protocol/StateMachine.antt =====
-- `protocol/state_machine.py`.
pub mod Reach
use batt_lock.Base.{ℕ, ◌≡◌, ◌==◌, Bool, true, false, if◌then◌else◌, List, [], ◌∷◌, ◌&&◌}

pub data ConnectionState : Type 0 where
  disconnected hello_received cert_verified challenge_sent authenticated : ConnectionState
  active_session : ConnectionState

-- The values of the Enum.
abbrev pub value : ConnectionState → ℕ
value disconnected = 0
value hello_received = 1
value cert_verified = 2
value challenge_sent = 3
value authenticated = 4
value active_session = 5

-- `==` on the members of the Enum.
abbrev pub same_state : ConnectionState → ConnectionState → Bool
same_state a b = value a == value b

pub record StateMachine : Type 0 where
  pub state : ConnectionState

abbrev pub new_machine : StateMachine
new_machine = record { state = disconnected }

unfoldable pub get_state : StateMachine → ConnectionState
get_state m = m.state

-- The methods, each with its result. Their names are those of the states they lead to, but for
-- `certificate_verified` and `session_established`.
unfoldable pub on_hello_received : StateMachine → Bool × StateMachine
on_hello_received m =
    if same_state m.state disconnected
    then (true, record m { state = hello_received })
    else (false, m)

unfoldable pub on_certificate_verified : StateMachine → Bool × StateMachine
on_certificate_verified m =
    if same_state m.state hello_received
    then (true, record m { state = cert_verified })
    else (false, m)

unfoldable pub on_challenge_sent : StateMachine → Bool × StateMachine
on_challenge_sent m =
    if same_state m.state cert_verified
    then (true, record m { state = challenge_sent })
    else (false, m)

unfoldable pub on_authenticated : StateMachine → Bool × StateMachine
on_authenticated m =
    if same_state m.state challenge_sent
    then (true, record m { state = authenticated })
    else (false, m)

unfoldable pub on_session_established : StateMachine → Bool × StateMachine
on_session_established m =
    if same_state m.state authenticated
    then (true, record m { state = active_session })
    else (false, m)

unfoldable pub reset : StateMachine → StateMachine
reset m = record m { state = disconnected }

unfoldable pub telemetry_allowed : StateMachine → Bool
telemetry_allowed m = same_state m.state active_session

-- The calls that a client can make.
pub data Call : Type 0 where
  hello certificate challenge authentication session restart : Call

unfoldable pub call : Call → StateMachine → Bool × StateMachine
unfolding on_hello_received on_certificate_verified on_challenge_sent on_authenticated
    on_session_established reset
call hello m = on_hello_received m
call certificate m = on_certificate_verified m
call challenge m = on_challenge_sent m
call authentication m = on_authenticated m
call session m = on_session_established m
call restart m = (true, reset m)

-- Calls in a row: the results and the machine after them.
unfoldable pub run : List Call → StateMachine → List Bool × StateMachine
unfolding call
run [] m = ([], m)
run (c ∷ cs) m = let (done, m') = call c m in let (rest, m'') = run cs m' in (done ∷ rest, m'')
