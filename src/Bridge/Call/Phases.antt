-- ===== src/Bridge/Call/Phases.antt =====
-- The phases of a call in state.go, under every history of the methods of session.go and leg.go.
use sipgate_sip_stream_bridg.Prelude.{
  ℕ, ◌≡◌, refl, String, Bool, false, List, [], ◌∷◌, ◌++◌, ◌⊎◌, inl, inr, arith, if◌then◌else◌, ◌&&◌,
  ◌∙◌, ap, Bool-cases,
}
use sipgate_sip_stream_bridg.Bridge.State.{
  State, dispatching, streaming, forwarding, terminated, dialing_out, cas,
}
use sipgate_sip_stream_bridg.Bridge.Leg.{Leg}
use sipgate_sip_stream_bridg.Bridge.Call.{
  CallSession, is_active, set_status_callback, set_answered_at, set_sip_final_code, swap_final_code,
  mark_emitted, next_sequence_number,
}
use sipgate_sip_stream_bridg.Bridge.Call.Callback.{mark_terminated}
use sipgate_sip_stream_bridg.Bridge.Call.Frame.{mark_terminated-SameMedia}
use sipgate_sip_stream_bridg.Bridge.Call.Lifecycle.{
  set_leg, terminate, close_stream, on_answered, run_end, parked_end, advance_terminated,
  can_answer, natural_actions,
}
use sipgate_sip_stream_bridg.Bridge.Call.History.{
  Op, terminates, closes_stream, answers, ends, ends_parked, step, run,
}

-- The moves of a phase that the methods of a call make, and staying. The diagram at the top of state.go
-- lacks the one from dialling to terminated, and has one from dispatching to streaming that none of the
-- methods here makes.
pub data Moves : State → State → Type 0 where
  stay : {s : State} → Moves s s
  close : Moves streaming dialing_out
  answer : Moves dialing_out forwarding
  end_streaming : Moves streaming terminated
  end_dialing : Moves dialing_out terminated
  end_forwarding : Moves forwarding terminated

pub data Reaches : State → State → Type 0 where
  here : {s : State} → Reaches s s
  next : {s t u : State} → Moves s t → Reaches t u → Reaches s u

-- The stamp of the end leaves the phase to Terminate.
mark_terminated-state :
    (reason : String) (now : ℕ) (s : CallSession) → (mark_terminated reason now s).state ≡ s.state
mark_terminated-state reason now s = (mark_terminated-SameMedia reason now s).state

advance-Moves : (s : State) → Moves s (advance_terminated s)
unfolding advance_terminated
advance-Moves streaming = end_streaming
advance-Moves dialing_out = end_dialing
advance-Moves forwarding = end_forwarding
advance-Moves dispatching = stay
advance-Moves _ = stay

close-Moves : (s : State) → Moves s (cas streaming dialing_out s)
close-Moves streaming = close
close-Moves _ = stay

answer-Moves : (s : State) → Moves s (cas dialing_out forwarding s)
answer-Moves dialing_out = answer
answer-Moves streaming = stay
answer-Moves _ = stay

Moves-of_eq : {s t : State} → t ≡ s → Moves s t
Moves-of_eq {s} e = rw e stay

close_stream-state :
    (reason : String) (s : CallSession)
    → (close_stream reason s).state
      ≡ (if s.close_stream_once then s.state else cas streaming dialing_out s.state)
unfolding close_stream
close_stream-state reason s = ground arith

on_answered-state :
    (leg : Leg) (socket : Bool) (s : CallSession)
    → (on_answered leg socket s).0.state
      ≡ (if can_answer leg && socket then cas dialing_out forwarding s.state else s.state)
unfolding on_answered
on_answered-state leg socket s = ground arith

-- Every method of a call makes one of these moves, or stays.
step-Moves : (o : Op) (s : CallSession) → Moves s.state (step o s).state
unfolding step terminate set_leg set_status_callback set_answered_at set_sip_final_code
    swap_final_code mark_emitted next_sequence_number run_end parked_end
step-Moves (terminates reason now) s =
    rw (mark_terminated-state reason now s) (advance-Moves s.state)
step-Moves (closes_stream reason) s = elim (Bool-cases s.close_stream_once) [
  | inl e ↦ Moves-of_eq (ground (arith, close_stream-state reason s))
  | inr e ↦ rw (close_stream-state reason s, e) (close-Moves s.state)
]
step-Moves (answers leg socket) s = elim (Bool-cases (can_answer leg && socket)) [
  | inl e ↦ rw (on_answered-state leg socket s, e) (answer-Moves s.state)
  | inr e ↦ Moves-of_eq (ground (arith, on_answered-state leg socket s))
]
step-Moves (ends now) s = Moves-of_eq (
    mark_terminated-state "completed" now
      (record s { ws_actions = s.ws_actions ++ natural_actions s.stream_closed }))
step-Moves (ends_parked now) s = Moves-of_eq (mark_terminated-state "completed" now s)
step-Moves o s = Moves-of_eq (ground arith)

pub run-Reaches : (os : List Op) (s : CallSession) → Reaches s.state (run os s).state
unfolding run
run-Reaches [] s = here
run-Reaches (o ∷ os) s = next (step-Moves o s) (run-Reaches os (step o s))

from_terminated : {s t : State} → s ≡ terminated → Moves s t → t ≡ terminated
from_terminated e stay = e
from_terminated e close = cc
from_terminated e answer = cc
from_terminated e end_streaming = refl
from_terminated e end_dialing = refl
from_terminated e end_forwarding = refl

Reaches-terminated : {s t : State} → s ≡ terminated → Reaches s t → t ≡ terminated
Reaches-terminated e here = e
Reaches-terminated {s} e (next m r) = Reaches-terminated (from_terminated e m) r

-- The phases that a call with media is in.
abbrev pub IsLive : State → Type 0
IsLive s = (s ≡ streaming) ⊎ (s ≡ dialing_out) ⊎ (s ≡ forwarding)

terminate-state :
    (reason : String) (now : ℕ) (s : CallSession)
    → (step (terminates reason now) s).state ≡ advance_terminated s.state
unfolding step terminate
terminate-state reason now s = ap advance_terminated (mark_terminated-state reason now s)

pub advance_live : (s : State) → IsLive s → advance_terminated s ≡ terminated
unfolding advance_terminated
advance_live s h = ground arith

-- Terminate takes a streaming, dialling or forwarding call to its terminated phase, which no later
-- history leaves: the call is not active any more.
pub terminate_final :
    (reason : String) (now : ℕ) (os : List Op) (s : CallSession)
    → IsLive s.state
    → ((run (terminates reason now ∷ os) s).state ≡ terminated)
      × (is_active (run (terminates reason now ∷ os) s) ≡ false)
unfolding run is_active
terminate_final reason now os s h =
    let t = step (terminates reason now) s in
    let e =
      Reaches-terminated (terminate-state reason now s ∙ advance_live s.state h)
        (run-Reaches os t) in
    (e, ground arith)
