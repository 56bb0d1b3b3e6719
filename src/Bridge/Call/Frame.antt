-- ===== src/Bridge/Call/Frame.antt =====
-- What markTerminated of session.go leaves alone: the phase, the legs and the WebSocket side.
use sipgate_sip_stream_bridg.Prelude.{ℕ, ◌≡◌, String, Bool, true, Option, some, arith}
use sipgate_sip_stream_bridg.Bridge.Call.{
  CallSession, StatusCallbackConfig, twilio_status_from_term_reason, swap_final_code, mark_emitted,
  next_sequence_number,
}
use sipgate_sip_stream_bridg.Bridge.Call.Callback.{
  mark_terminated, stamp_terminated, emit_terminal_status_callback, enqueue_terminal,
  emit_subscribed, default_sip_code_for_reason,
}

pub record SameMedia (s t : CallSession) : Type 0 where
  pub state : t.state ≡ s.state
  pub legs : t.legs ≡ s.legs
  pub byes : t.byes ≡ s.byes
  pub ws_actions : t.ws_actions ≡ s.ws_actions
  pub stream_closed : t.stream_closed ≡ s.stream_closed
  pub close_stream_once : t.close_stream_once ≡ s.close_stream_once
  pub stop_reason : t.stop_reason ≡ s.stop_reason
  pub session_cancelled : t.session_cancelled ≡ s.session_cancelled
  pub running : t.running ≡ s.running

emit_subscribed-SameMedia :
    (b : Bool) (c : Option StatusCallbackConfig) (call_status : String) (now : ℕ) (s : CallSession)
    → SameMedia s (emit_subscribed b c call_status now s)
unfolding enqueue_terminal next_sequence_number mark_emitted
emit_subscribed-SameMedia b c call_status now s = ground arith

pub mark_terminated-SameMedia :
    (reason : String) (now : ℕ) (s : CallSession) → SameMedia s (mark_terminated reason now s)
unfolding mark_terminated stamp_terminated emit_terminal_status_callback swap_final_code
mark_terminated-SameMedia reason now s =
    let m =
      emit_subscribed-SameMedia s.has_status_client s.status_callback
        (twilio_status_from_term_reason reason) now
        (swap_final_code (default_sip_code_for_reason reason) (record s {
          terminate_once = true;
          terminal = some (record { end_time = now; term_reason = reason });
        })) in
    ground (
      arith, m.state, m.legs, m.byes, m.ws_actions, m.stream_closed, m.close_stream_once,
      m.stop_reason, m.session_cancelled, m.running,
    )
