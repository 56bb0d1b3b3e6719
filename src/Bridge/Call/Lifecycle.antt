-- ===== src/Bridge/Call/Lifecycle.antt =====
-- go/internal/bridge/session.go and leg.go: the methods that move a call from phase to phase.
use sipgate_sip_stream_bridg.Prelude.{
  ℕ, zero, suc, String, Bool, true, false, Option, none, some, List, [], ◌∷◌, ◌++◌, ltb, ◌==◌, ◌&&◌,
  ◌||◌, not, if◌then◌else◌,
}
use sipgate_sip_stream_bridg.Bridge.State.{
  State, streaming, forwarding, terminated, dialing_out, cas,
}
use sipgate_sip_stream_bridg.Bridge.Leg.{Leg, bye}
use sipgate_sip_stream_bridg.Bridge.Call.{
  CallSession, WsAction, read_deadline_now, write_deadline_now, goroutines_drained,
  write_deadline_2s, stop_sent, closed,
}
use sipgate_sip_stream_bridg.Bridge.Call.Callback.{mark_terminated}

-- A write at an index past the end grows the slice with nil legs.
unfoldable pub set_at : ℕ → Option Leg → List (Option Leg) → List (Option Leg)
set_at zero leg [] = leg ∷ []
set_at zero leg (l ∷ ls) = leg ∷ ls
set_at (suc i) leg [] = none ∷ set_at i leg []
set_at (suc i) leg (l ∷ ls) = l ∷ set_at i leg ls

abbrev pub with_session : Option Leg → Option Leg
with_session none = none
with_session (some l) = some (record l { has_session = true })

-- SetLeg; the index is not negative.
unfoldable pub set_leg : ℕ → Option Leg → CallSession → CallSession
set_leg i leg s = if ltb 100 i then s else record s { legs = set_at i (with_session leg) s.legs }

abbrev pub leg_at : ℕ → List (Option Leg) → Option Leg
leg_at i [] = none
leg_at zero (l ∷ ls) = l
leg_at (suc i) (l ∷ ls) = leg_at i ls

unfoldable pub primary : CallSession → Option Leg
primary s = leg_at 0 s.legs

unfoldable pub peer_leg : ℕ → CallSession → Option Leg
peer_leg zero s = leg_at 1 s.legs
peer_leg (suc zero) s = leg_at 0 s.legs
peer_leg (suc (suc n)) s = none

-- The loop of Terminate over the legs.
unfoldable pub bye_legs : List (Option Leg) → List (Option Leg) × List ℕ
bye_legs [] = ([], [])
bye_legs (none ∷ ls) = let (ls', sent) = bye_legs ls in (none ∷ ls', sent)
bye_legs (some l ∷ ls) =
    let (l', one) = bye l in let (ls', sent) = bye_legs ls in (some l' ∷ ls', one ++ sent)

-- Terminate returns the first error of its BYEs; which BYEs fail is up to the network.
abbrev pub first_error {ℓ} : {E : Type ℓ} → (ℕ → Option E) → List ℕ → Option E
first_error fails [] = none
first_error fails (d ∷ ds) = elim (fails d) [ some e ↦ some e | none ↦ first_error fails ds ]

unfoldable pub advance_terminated : State → State
advance_terminated st =
    cas forwarding terminated (cas dialing_out terminated (cas streaming terminated st))

unfoldable pub terminate {ℓ} :
    {E : Type ℓ} → (ℕ → Option E) → String → ℕ → CallSession → CallSession × Option E
terminate fails reason now s =
    let m = mark_terminated reason now s in
    let (legs, sent) = bye_legs m.legs in
    (
      record m {
        state = advance_terminated m.state;
        session_cancelled = m.session_cancelled || m.running;
        ws_cancelled = m.ws_cancelled || m.running;
        legs = legs;
        byes = m.byes ++ sent;
      },
      first_error fails sent,
    )

-- What CloseStream does with a connection, and without one.
abbrev pub close_actions : Bool → List WsAction
close_actions true =
    read_deadline_now ∷ write_deadline_now ∷ goroutines_drained ∷ write_deadline_2s ∷ stop_sent
    ∷ closed ∷ []
close_actions false = []

-- CloseStream as one step: the code sets its flag, waits for the goroutines, sends the stop message and
-- closes one after another.
unfoldable pub close_stream : String → CallSession → CallSession
close_stream reason s = if s.close_stream_once then s else record s {
  close_stream_once = true;
  stop_reason = reason;
  stream_closed = true;
  state = cas streaming dialing_out s.state;
  ws_cancelled = s.ws_cancelled || s.running;
  ws_actions = s.ws_actions ++ close_actions s.running;
}

-- OnAnswered of the leg at an index: its checks, and whether ListenUDP gives a socket.
unfoldable pub can_answer : Leg → Bool
can_answer l =
    l.has_session && not (l.rtp_port == 0) && elim l.remote_rtp [ none ↦ false | some a ↦ true ]

unfoldable pub on_answered : Leg → Bool → CallSession → CallSession × Bool
on_answered l socket s =
    if can_answer l && socket
    then (record s { state = cas dialing_out forwarding s.state }, true)
    else (s, false)

-- The end of run when the session context is done: in the select, where the stop message and the
-- close are left to CloseStream if it has run, and parked after CloseStream. The code tests the flag
-- and sends the stop message in two steps, and while the call runs it may also reconnect.
abbrev pub natural_actions : Bool → List WsAction
natural_actions true = read_deadline_now ∷ goroutines_drained ∷ []
natural_actions false = read_deadline_now ∷ goroutines_drained ∷ stop_sent ∷ closed ∷ []

unfoldable pub run_end : ℕ → CallSession → CallSession
run_end now s =
    mark_terminated "completed" now
      (record s { ws_actions = s.ws_actions ++ natural_actions s.stream_closed })

unfoldable pub parked_end : ℕ → CallSession → CallSession
parked_end now s = mark_terminated "completed" now s
