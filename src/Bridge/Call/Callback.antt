-- ===== src/Bridge/Call/Callback.antt =====
-- go/internal/bridge/session.go: markTerminated and the terminal status callback that it emits.
use sipgate_sip_stream_bridg.Prelude.{
  ℕ, ◌+◌, ◌-◌, ◌*◌, ◌/◌, String, Bool, true, Option, none, some, [], ◌∷◌, ◌++◌, ◌==◌, str_eq,
  if◌then◌else◌,
}
use sipgate_sip_stream_bridg.Prelude.Dict.{Dict, store}
use sipgate_sip_stream_bridg.Webhook.Subscription.{resolve_event_name}
use sipgate_sip_stream_bridg.Bridge.Call.{
  CallSession, StatusCallbackConfig, CallbackEvent, Value, text, number, stamp, second,
  next_sequence_number, swap_final_code, mark_emitted, twilio_status_from_term_reason,
}

unfoldable pub default_sip_code_for_reason : String → ℕ
default_sip_code_for_reason reason =
    if str_eq reason "canceled"
    then 487
    else if str_eq reason "busy"
    then 486
    else if str_eq reason "no-answer"
    then 408
    else if str_eq reason "failed"
    then 500
    else 200

-- The quotient rounded up, as math.Ceil of the minutes rounds it. (A float64 holds the minutes of a
-- duration exactly enough for this below 2^16 minutes.)
abbrev pub ceil_div : ℕ → ℕ → ℕ
ceil_div a b = (a + (b - 1)) / b

-- The subtraction stops at 0, which is the guard against an answer after the end.
abbrev answered_fields : Option ℕ → ℕ → Dict Value → Dict Value
answered_fields none end_time form = form
answered_fields (some at) end_time form =
    store "Duration" (number (ceil_div (end_time - at) (60 * second)))
      (store "CallDuration" (number ((end_time - at) / second)) form)

abbrev code_field : ℕ → Dict Value → Dict Value
code_field code form = if code == 0 then form else store "SipResponseCode" (number code) form

unfoldable pub terminal_form : CallSession → String → ℕ → ℕ → Dict Value
terminal_form s call_status end_time seq = code_field s.sip_final_code (
    answered_fields s.answered_at end_time (
      ("CallSid", text s.call_sid)
      ∷ ("AccountSid", text s.account_sid)
      ∷ ("From", text s.from)
      ∷ ("To", text s.to)
      ∷ ("Caller", text s.from)
      ∷ ("Called", text s.to)
      ∷ ("Direction", text "inbound")
      ∷ ("ApiVersion", text "2010-04-01")
      ∷ ("CallStatus", text call_status)
      ∷ ("Timestamp", stamp end_time)
      ∷ ("SequenceNumber", number seq)
      ∷ ("CallbackSource", text "call-progress-events")
      ∷ []))

abbrev pub method_or_post : String → String
method_or_post m = if str_eq m "" then "POST" else m

-- What is enqueued once the event has a name.
unfoldable pub enqueue_terminal :
    StatusCallbackConfig → String → String → ℕ → CallSession → CallSession
enqueue_terminal cfg call_status event_name end_time s =
    let (s', seq) = next_sequence_number s in
    let evt : CallbackEvent = record {
      url = cfg.url;
      method = method_or_post cfg.method;
      form = terminal_form s' call_status end_time seq;
      event = event_name;
      trusted = cfg.trusted;
    } in
    record (mark_emitted s').0 { enqueued = s.enqueued ++ evt ∷ [] }

abbrev pub enqueue_resolved :
    StatusCallbackConfig → String → Option String → ℕ → CallSession → CallSession
enqueue_resolved cfg call_status none end_time s = s
enqueue_resolved cfg call_status (some event_name) end_time s =
    enqueue_terminal cfg call_status event_name end_time s

abbrev pub emit_subscribed :
    Bool → Option StatusCallbackConfig → String → ℕ → CallSession → CallSession
emit_subscribed true (some cfg) call_status end_time s =
    enqueue_resolved cfg call_status (resolve_event_name cfg.events call_status) end_time s
emit_subscribed _ _ call_status end_time s = s

unfoldable pub emit_terminal_status_callback : String → ℕ → CallSession → CallSession
emit_terminal_status_callback reason end_time s =
    emit_subscribed s.has_status_client s.status_callback (twilio_status_from_term_reason reason)
      end_time s

-- The goroutine that drains the queue of the call is started only with a client.
abbrev pub drain : CallSession → CallSession
drain s = if s.has_status_client then record s { drained = s.drained ++ s.call_sid ∷ [] } else s

-- The closure of terminateOnce.
unfoldable pub stamp_terminated : String → ℕ → CallSession → CallSession
stamp_terminated reason now s = drain (
    emit_terminal_status_callback reason now (
      swap_final_code (default_sip_code_for_reason reason) (record s {
        terminate_once = true;
        terminal = some (record { end_time = now; term_reason = reason });
      })))

unfoldable pub mark_terminated : String → ℕ → CallSession → CallSession
mark_terminated reason now s = if s.terminate_once then s else stamp_terminated reason now s
