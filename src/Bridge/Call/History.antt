-- ===== src/Bridge/Call/History.antt =====
-- A history of a call: the methods of session.go and leg.go that its goroutines may run, in any order.
use sipgate_sip_stream_bridg.Prelude.{ℕ, String, Bool, Option, List, [], ◌∷◌}
use sipgate_sip_stream_bridg.Bridge.Leg.{Leg}
use sipgate_sip_stream_bridg.Bridge.Call.{
  CallSession, StatusCallbackConfig, set_status_callback, set_answered_at, set_sip_final_code,
  mark_emitted, next_sequence_number,
}
use sipgate_sip_stream_bridg.Bridge.Call.Lifecycle.{
  set_leg, terminate, close_stream, on_answered, run_end, parked_end,
}

pub data Op : Type 0 where
  terminates : String → ℕ → Op
  closes_stream : String → Op
  sets_leg : ℕ → Option Leg → Op
  answers : Leg → Bool → Op
  ends ends_parked : ℕ → Op
  subscribes : Option StatusCallbackConfig → Op
  answered : ℕ → Op
  final_code : ℕ → Op
  emits numbers : Op

-- Which BYEs fail has no effect on the session.
unfoldable pub step : Op → CallSession → CallSession
step (terminates reason now) s = (terminate {E = Unit {0}} (λ d. Option.none) reason now s).0
step (closes_stream reason) s = close_stream reason s
step (sets_leg i leg) s = set_leg i leg s
step (answers leg socket) s = (on_answered leg socket s).0
step (ends now) s = run_end now s
step (ends_parked now) s = parked_end now s
step (subscribes cfg) s = set_status_callback cfg s
step (answered t) s = set_answered_at t s
step (final_code code) s = set_sip_final_code code s
step emits s = (mark_emitted s).0
step numbers s = (next_sequence_number s).0

unfoldable pub run : List Op → CallSession → CallSession
run [] s = s
run (o ∷ os) s = run os (step o s)
