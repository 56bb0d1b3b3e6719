-- ===== src/Bridge/Call.antt =====
-- go/internal/bridge/session.go, CallSession: what the goroutines of a call share, and its methods.
-- A method runs as one step. The clock is monotonic, so that no call ends before it starts. Times are
-- nanoseconds. `enqueued` collects the events that are handed to StatusClient.Enqueue and `drained` the
-- calls of DrainAndClose; the log lines are left out.
pub mod Callback
pub mod Callee
pub mod Lifecycle
pub mod Frame
pub mod History
pub mod Once
pub mod FinalEvent
pub mod Phases
pub mod Race
pub mod Byes
pub mod Examples
use sipgate_sip_stream_bridg.Prelude.{
  ℕ, zero, suc, ◌+◌, ◌-◌, ◌*◌, ◌/◌, ◌%◌, ◌^◌, String, Bool, true, false, Option, none, some, List,
  [], ◌∷◌, ◌++◌, ltb, ◌==◌, ◌&&◌, str_eq, not, if◌then◌else◌, length, replicate,
}
pub use sipgate_sip_stream_bridg.Webhook.Event.{Value, text, number, stamp, CallbackEvent}
use sipgate_sip_stream_bridg.Bridge.State.{
  State, dispatching, streaming, forwarding_setup, forwarding, redirected, hung_up, terminated,
  dialing_out, cas, state_eq,
}
use sipgate_sip_stream_bridg.Bridge.Leg.{Leg, bye}

pub record Terminal : Type 0 where
  pub end_time : ℕ
  pub term_reason : String

pub record StatusCallbackConfig : Type 0 where
  pub url : String
  pub method : String
  -- [] is the empty set: subscribe to all.
  pub events : List String
  pub trusted : Bool

-- What CloseStream and run do to the WebSocket connection, in order.
pub data WsAction : Type 0 where
  read_deadline_now write_deadline_now goroutines_drained write_deadline_2s stop_sent closed :
      WsAction

pub record CallSession : Type 0 where
  pub call_id : String
  pub call_sid : String
  pub account_sid : String
  pub from : String
  pub to : String
  pub start_time : ℕ
  pub terminal : Option Terminal
  pub status_callback : Option StatusCallbackConfig
  pub seq_counter : ℕ
  pub answered_at : Option ℕ
  pub sip_final_code : ℕ
  pub ever_emitted : Bool
  pub has_status_client : Bool
  pub enqueued : List CallbackEvent
  pub drained : List String
  pub state : State
  pub legs : List (Option Leg)
  pub byes : List ℕ
  pub session_cancelled : Bool
  pub ws_cancelled : Bool
  -- run has set up the contexts and the connection.
  pub running : Bool
  pub ws_actions : List WsAction
  pub stream_closed : Bool
  pub stop_reason : String
  pub close_stream_once : Bool
  pub terminate_once : Bool

-- The setters. The first answer and the first final code that is not 0 stay.
unfoldable pub set_status_callback : Option StatusCallbackConfig → CallSession → CallSession
set_status_callback cfg s = record s { status_callback = cfg }

unfoldable pub next_sequence_number : CallSession → CallSession × ℕ
next_sequence_number s = (record s { seq_counter = (s.seq_counter + 1) % 2 ^ 64 }, s.seq_counter)

abbrev first_of_two : Option ℕ → ℕ → Option ℕ
first_of_two none t = some t
first_of_two (some u) t = some u

unfoldable pub set_answered_at : ℕ → CallSession → CallSession
set_answered_at t s = record s { answered_at = first_of_two s.answered_at t }

-- CompareAndSwap(0, code) on the final code.
unfoldable pub swap_final_code : ℕ → CallSession → CallSession
swap_final_code code s = record s {
  sip_final_code = if s.sip_final_code == 0 then code else s.sip_final_code;
}

unfoldable pub set_sip_final_code : ℕ → CallSession → CallSession
unfolding swap_final_code
set_sip_final_code code s = if code == 0 then s else swap_final_code code s

unfoldable pub mark_emitted : CallSession → CallSession × Bool
mark_emitted s = (record s { ever_emitted = true }, not s.ever_emitted)

-- The getters of the REST view.
unfoldable pub twilio_status_from_term_reason : String → String
twilio_status_from_term_reason reason =
    if str_eq reason "busy"
    then "busy"
    else if str_eq reason "no-answer"
    then "no-answer"
    else if str_eq reason "canceled"
    then "canceled"
    else if str_eq reason "failed"
    then "failed"
    else "completed"

abbrev pub live_status : State → String
live_status dispatching = "queued"
live_status streaming = "in-progress"
live_status forwarding_setup = "in-progress"
live_status dialing_out = "in-progress"
live_status forwarding = "in-progress"
live_status redirected = "in-progress"
live_status hung_up = "completed"
live_status terminated = "completed"

unfoldable pub status : CallSession → String
status s = elim s.terminal [
  | some t ↦ twilio_status_from_term_reason t.term_reason
  | none ↦ live_status s.state
]

-- 0 is Go's zero time.
unfoldable pub end_time : CallSession → ℕ
end_time s = elim s.terminal [ some t ↦ t.end_time | none ↦ 0 ]

abbrev pub second : ℕ
second = 1_000_000_000

unfoldable pub duration : CallSession → ℕ
duration s = elim s.terminal [ some t ↦ (t.end_time - s.start_time) / second | none ↦ 0 ]

unfoldable pub is_active : CallSession → Bool
is_active s = not (state_eq s.state terminated) && not (state_eq s.state hung_up)
