-- ===== src/Protocol/StateMachine/Reach.antt =====
-- How the machine gets to an active session, and how not.
use mathlib.Core.List.{Sublistᴰ, Sublist}
use batt_lock.Base.{◌≡◌, ◌≢◌, ◌⊎◌, ◌+◌, refl, true, false, List, [], ◌∷◌, ◌++◌, arith, inr, take}
use batt_lock.Protocol.StateMachine.{
  ConnectionState, disconnected, hello_received, cert_verified, challenge_sent, authenticated,
  active_session, value, StateMachine, new_machine, telemetry_allowed, Call, hello, certificate,
  challenge, authentication, session, restart, call, run,
}

-- The one order of calls that leads to a session.
abbrev pub handshake : List Call
handshake = hello ∷ certificate ∷ challenge ∷ authentication ∷ session ∷ []

-- The calls after the last `reset`; `earlier` are those before `calls`.
abbrev pub since_reset : List Call → List Call → List Call
since_reset earlier [] = earlier
since_reset earlier (restart ∷ cs) = since_reset [] cs
since_reset earlier (c ∷ cs) = since_reset (earlier ++ c ∷ []) cs

-- Every call either moves the machine to the next state and says so, or says that it failed and
-- changes nothing, or is `reset`.
pub call_effect :
    (c : Call) (m : StateMachine)
    → (((call c m).0 ≡ true) × (value (call c m).1.state ≡ value m.state + 1))
      ⊎ ((call c m ≡ (false, m)) ⊎ ((c ≡ restart) × (call c m ≡ (true, new_machine))))
unfolding call
call_effect hello m = ground arith
call_effect certificate m = ground arith
call_effect challenge m = ground arith
call_effect authentication m = ground arith
call_effect session m = ground arith
call_effect restart m = inr (inr (refl, refl))

-- The handshake takes a new machine to an active session, each call succeeding, and then
-- telemetry is allowed.
pub run-handshake :
    (run handshake new_machine
      ≡ (true ∷ true ∷ true ∷ true ∷ true ∷ [], record { state = active_session }))
    × (telemetry_allowed (run handshake new_machine).1 ≡ true)
unfolding run telemetry_allowed
run-handshake = (refl, refl)

module _ (c : Call) where
  sublist_nil : (h : List Call) → Sublistᴰ [] h
  sublist_nil [] = Sublistᴰ.slnil
  sublist_nil (d ∷ h) = Sublistᴰ.cons (sublist_nil h)

  -- A call that fails is left out, and one that succeeds is the next of the handshake.
  sublist_skip : {l h : List Call} → Sublistᴰ l h → Sublistᴰ l (h ++ c ∷ [])
  sublist_skip Sublistᴰ.slnil = Sublistᴰ.cons Sublistᴰ.slnil
  sublist_skip (Sublistᴰ.cons s) = Sublistᴰ.cons (sublist_skip s)
  sublist_skip (Sublistᴰ.cons-cons e s) = Sublistᴰ.cons-cons e (sublist_skip s)

  sublist_snoc : {l h : List Call} → Sublistᴰ l h → Sublistᴰ (l ++ c ∷ []) (h ++ c ∷ [])
  sublist_snoc Sublistᴰ.slnil = Sublistᴰ.cons-cons refl Sublistᴰ.slnil
  sublist_snoc (Sublistᴰ.cons s) = Sublistᴰ.cons (sublist_snoc s)
  sublist_snoc (Sublistᴰ.cons-cons e s) = Sublistᴰ.cons-cons e (sublist_snoc s)

-- The part of the handshake that a state stands for.
abbrev done : ConnectionState → List Call
done s = take (value s) handshake

-- A call other than `reset` keeps the calls so far at least as long as the state needs.
call-done :
    (c : Call) (s : ConnectionState) (h : List Call)
    → c ≢ restart
    → Sublistᴰ (done s) h
    → Sublistᴰ (done (call c (record { state = s })).1.state) (h ++ c ∷ [])
unfolding call
call-done hello disconnected h n d = sublist_snoc hello d
call-done hello hello_received h n d = sublist_skip hello d
call-done hello _ h n d = sublist_skip hello d
call-done certificate hello_received h n d = sublist_snoc certificate d
call-done certificate _ h n d = sublist_skip certificate d
call-done challenge cert_verified h n d = sublist_snoc challenge d
call-done challenge _ h n d = sublist_skip challenge d
call-done authentication challenge_sent h n d = sublist_snoc authentication d
call-done authentication _ h n d = sublist_skip authentication d
call-done session authenticated h n d = sublist_snoc session d
call-done session _ h n d = sublist_skip session d
call-done restart _ h n d = absurd (n refl)

run-done :
    (cs h : List Call) (m : StateMachine)
    → Sublistᴰ (done m.state) h
    → Sublistᴰ (done (run cs m).1.state) (since_reset h cs)
unfolding run
run-done [] h m d = d
run-done (restart ∷ cs) h m d = unfold call in run-done cs [] new_machine Sublistᴰ.slnil
run-done (hello ∷ cs) h m d =
    run-done cs (h ++ hello ∷ []) (call hello m).1 (call-done hello m.state h (λ e. cc) d)
run-done (certificate ∷ cs) h m d =
    run-done cs (h ++ certificate ∷ []) (call certificate m).1
      (call-done certificate m.state h (λ e. cc) d)
run-done (challenge ∷ cs) h m d =
    run-done cs (h ++ challenge ∷ []) (call challenge m).1
      (call-done challenge m.state h (λ e. cc) d)
run-done (authentication ∷ cs) h m d =
    run-done cs (h ++ authentication ∷ []) (call authentication m).1
      (call-done authentication m.state h (λ e. cc) d)
run-done (session ∷ cs) h m d =
    run-done cs (h ++ session ∷ []) (call session m).1 (call-done session m.state h (λ e. cc) d)

-- Whatever calls are made of a new machine: if telemetry is allowed after them, then since the last
-- reset hello, certificate, challenge, authentication and session were called in this order.
pub telemetry_needs_handshake :
    (cs : List Call)
    → telemetry_allowed (run cs new_machine).1 ≡ true
    → Sublist handshake (since_reset [] cs)
telemetry_needs_handshake cs t =
    let active : (run cs new_machine).1.state ≡ active_session =
      unfold telemetry_allowed in ground arith in
    ∣ rw active at (run-done cs [] new_machine Sublistᴰ.slnil) ∣₁
