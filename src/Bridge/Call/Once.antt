-- ===== src/Bridge/Call/Once.antt =====
-- A call ends once: markTerminated of session.go over every history.
use sipgate_sip_stream_bridg.Prelude.{
  ℕ, ◌+◌, ◌≤◌, ◌≡◌, refl, String, Bool, true, false, Option, none, some, List, [], ◌∷◌, ◌++◌, arith,
  ◌∙◌, if◌then◌else◌, length, length-append,
}
use sipgate_sip_stream_bridg.Webhook.Subscription.{resolve_event_name}
use sipgate_sip_stream_bridg.Bridge.Call.{
  CallSession, StatusCallbackConfig, status, twilio_status_from_term_reason, set_status_callback,
  set_answered_at, set_sip_final_code, swap_final_code, mark_emitted, next_sequence_number,
}
use sipgate_sip_stream_bridg.Bridge.Call.Callback.{
  mark_terminated, stamp_terminated, emit_terminal_status_callback, enqueue_terminal,
  enqueue_resolved, emit_subscribed, default_sip_code_for_reason,
}
use sipgate_sip_stream_bridg.Bridge.Call.Lifecycle.{
  set_leg, terminate, close_stream, on_answered, run_end, parked_end, natural_actions,
}
use sipgate_sip_stream_bridg.Bridge.Call.History.{
  Op, terminates, closes_stream, ends, ends_parked, step, run,
}

-- What is settled once a call has ended.
pub record SameEnd (s t : CallSession) : Type 0 where
  pub once : t.terminate_once ≡ true
  pub terminal : t.terminal ≡ s.terminal
  pub enqueued : t.enqueued ≡ s.enqueued
  pub drained : t.drained ≡ s.drained

mark_terminated_again :
    (reason : String) (now : ℕ) (s : CallSession)
    → s.terminate_once ≡ true
    → mark_terminated reason now s ≡ s
unfolding mark_terminated
mark_terminated_again reason now s h = rw h refl

step-SameEnd : (o : Op) (s : CallSession) → s.terminate_once ≡ true → SameEnd s (step o s)
unfolding step terminate close_stream run_end parked_end set_leg on_answered set_status_callback
    set_answered_at set_sip_final_code swap_final_code mark_emitted next_sequence_number
    mark_terminated
step-SameEnd (terminates reason now) s h = ground arith
step-SameEnd (closes_stream reason) s h = ground arith
step-SameEnd (ends now) s h = ground arith
step-SameEnd o s h = ground arith

run-SameEnd : (os : List Op) (s : CallSession) → s.terminate_once ≡ true → SameEnd s (run os s)
unfolding run
run-SameEnd [] s h = record { once = h; terminal = refl; enqueued = refl; drained = refl }
run-SameEnd (o ∷ os) s h =
    let one = step-SameEnd o s h in
    let more = run-SameEnd os (step o s) one.once in
    record {
      once = more.once;
      terminal = more.terminal ∙ one.terminal;
      enqueued = more.enqueued ∙ one.enqueued;
      drained = more.drained ∙ one.drained;
    }

-- What an emission leaves alone, and that it hands over at most one event.
pub record Emits (s t : CallSession) : Type 0 where
  pub once : t.terminate_once ≡ s.terminate_once
  pub terminal : t.terminal ≡ s.terminal
  pub drained : t.drained ≡ s.drained
  pub client : t.has_status_client ≡ s.has_status_client
  pub sid : t.call_sid ≡ s.call_sid
  pub at_most_one : length t.enqueued ≤ length s.enqueued + 1

Emits-refl : (s : CallSession) → Emits s s
Emits-refl s = ground arith

enqueue_resolved-Emits :
    (cfg : StatusCallbackConfig) (call_status : String) (r : Option String) (now : ℕ)
    (s : CallSession)
    → Emits s (enqueue_resolved cfg call_status r now s)
unfolding enqueue_terminal next_sequence_number mark_emitted
enqueue_resolved-Emits cfg call_status none now s = Emits-refl s
enqueue_resolved-Emits cfg call_status (some e) now s = record {
  once = refl;
  terminal = refl;
  drained = refl;
  client = refl;
  sid = refl;
  at_most_one = omega (arith, length-append {0} s.enqueued);
}

emit_subscribed-Emits :
    (b : Bool) (c : Option StatusCallbackConfig) (call_status : String) (now : ℕ) (s : CallSession)
    → Emits s (emit_subscribed b c call_status now s)
emit_subscribed-Emits true (some cfg) call_status now s =
    enqueue_resolved-Emits cfg call_status (resolve_event_name cfg.events call_status) now s
emit_subscribed-Emits _ _ call_status now s = Emits-refl s

-- The stamp by which a call ends, whichever method it is in.
pub record Ended (reason : String) (now : ℕ) (s t : CallSession) : Type 0 where
  pub once : t.terminate_once ≡ true
  pub stamped : t.terminal ≡ some (record { end_time = now; term_reason = reason })
  pub emitted : length t.enqueued ≤ length s.enqueued + 1
  pub drained :
      t.drained ≡ (if s.has_status_client then s.drained ++ s.call_sid ∷ [] else s.drained)

emit-Emits :
    (reason : String) (now : ℕ) (s : CallSession)
    → Emits s (emit_terminal_status_callback reason now s)
unfolding emit_terminal_status_callback
emit-Emits reason now s =
    emit_subscribed-Emits s.has_status_client s.status_callback
      (twilio_status_from_term_reason reason) now s

mark_terminated-Ended :
    (reason : String) (now : ℕ) (s : CallSession)
    → s.terminate_once ≡ false
    → Ended reason now s (mark_terminated reason now s)
unfolding mark_terminated stamp_terminated swap_final_code
mark_terminated-Ended reason now s h =
    let t = swap_final_code (default_sip_code_for_reason reason) (record s {
      terminate_once = true;
      terminal = some (record { end_time = now; term_reason = reason });
    }) in
    let e = emit-Emits reason now t in
    ground (arith, e.once, e.terminal, e.drained, e.client, e.sid, e.at_most_one)

-- The methods that end a call, with their reason and time.
abbrev pub ending : Op → Option (String × ℕ)
ending (terminates reason now) = some (reason, now)
ending (ends now) = some ("completed", now)
ending (ends_parked now) = some ("completed", now)
ending _ = none

step-Ended :
    (o : Op) (s : CallSession) (reason : String) (now : ℕ)
    → ending o ≡ some (reason, now)
    → s.terminate_once ≡ false
    → Ended reason now s (step o s)
unfolding step terminate run_end parked_end
step-Ended (terminates r n) s reason now e h =
    let k = mark_terminated-Ended r n s h in ground (arith, k.once, k.stamped, k.emitted, k.drained)
step-Ended (ends n) s reason now e h =
    let u = record s { ws_actions = s.ws_actions ++ natural_actions s.stream_closed } in
    let k = mark_terminated-Ended "completed" n u h in
    ground (arith, k.once, k.stamped, k.emitted, k.drained)
step-Ended (ends_parked n) s reason now e h =
    let k = mark_terminated-Ended "completed" n s h in
    ground (arith, k.once, k.stamped, k.emitted, k.drained)
step-Ended _ s reason now e h = cc

-- Whichever method ends a live call first (Terminate, the natural end of run or its parked end), its
-- reason and time stay through every later history: the status is that of the reason, at most one
-- event is handed to the StatusClient from then on, and the queue of the call is drained once if there
-- is a client.
pub first_end_wins :
    (s : CallSession) (o : Op) (reason : String) (now : ℕ) (os : List Op)
    → ending o ≡ some (reason, now)
    → s.terminate_once ≡ false
    → let t = run (o ∷ os) s in
      (t.terminal ≡ some (record { end_time = now; term_reason = reason }))
      × (status t ≡ twilio_status_from_term_reason reason)
      × (length t.enqueued ≤ length s.enqueued + 1)
      × (t.drained ≡ (if s.has_status_client then s.drained ++ s.call_sid ∷ [] else s.drained))
unfolding status run
first_end_wins s o reason now os e h =
    let k = step-Ended o s reason now e h in
    let r = run-SameEnd os (step o s) k.once in
    (
      r.terminal ∙ k.stamped,
      rw (r.terminal ∙ k.stamped) refl,
      rw r.enqueued k.emitted,
      r.drained ∙ k.drained,
    )
