-- ===== src/Bridge/Call/FinalEvent.antt =====
-- The terminal status callback of session.go: when there is one, and what it says.
use sipgate_sip_stream_bridg.Prelude.{
  ℕ, ◌-◌, ◌/◌, ◌≡◌, refl, String, true, false, Option, none, some, [], ◌∷◌, ◌++◌, ◌⊎◌, arith, ◌==◌,
  str_eq, if◌then◌else◌, ◌∙◌, ap,
}
use sipgate_sip_stream_bridg.Prelude.Dict.{load, store}
use sipgate_sip_stream_bridg.Webhook.Subscription.{resolve_event_name}
use sipgate_sip_stream_bridg.Bridge.Call.{
  CallSession, StatusCallbackConfig, CallbackEvent, Value, text, number, stamp, second,
  twilio_status_from_term_reason, swap_final_code, mark_emitted, next_sequence_number,
}
use sipgate_sip_stream_bridg.Bridge.Call.Callback.{
  mark_terminated, stamp_terminated, emit_terminal_status_callback, enqueue_terminal,
  default_sip_code_for_reason, terminal_form, method_or_post,
}

default_sip_code_pos : (reason : String) → (default_sip_code_for_reason reason == 0) ≡ false
unfolding default_sip_code_for_reason
default_sip_code_pos reason = ground arith

-- The code that a call ends with: the one that was recorded, or the one of the reason.
abbrev pub final_code : CallSession → String → ℕ
final_code s reason =
    if s.sip_final_code == 0 then default_sip_code_for_reason reason else s.sip_final_code

abbrev pub seconds_since : Option ℕ → ℕ → Option Value
seconds_since none now = none
seconds_since (some at) now = some (number ((now - at) / second))

-- What the form says, under the keys of Twilio.
pub record Says (s : CallSession) (reason : String) (now : ℕ) (evt : CallbackEvent) : Type 0 where
  pub call_sid : load "CallSid" evt.form ≡ some (text s.call_sid)
  pub call_status : load "CallStatus" evt.form ≡ some (text (twilio_status_from_term_reason reason))
  pub timestamp : load "Timestamp" evt.form ≡ some (stamp now)
  pub sequence : load "SequenceNumber" evt.form ≡ some (number s.seq_counter)
  pub code : load "SipResponseCode" evt.form ≡ some (number (final_code s reason))
  pub talk : load "CallDuration" evt.form ≡ seconds_since s.answered_at now

form_says :
    (s : CallSession) (call_status : String) (now seq : ℕ)
    → (s.sip_final_code == 0) ≡ false
    → let form = terminal_form s call_status now seq in
      (load "CallSid" form ≡ some (text s.call_sid))
      × (load "CallStatus" form ≡ some (text call_status))
      × (load "Timestamp" form ≡ some (stamp now))
      × (load "SequenceNumber" form ≡ some (number seq))
      × (load "SipResponseCode" form ≡ some (number s.sip_final_code))
      × (load "CallDuration" form ≡ seconds_since s.answered_at now)
unfolding terminal_form load store
form_says s call_status now seq h = ground arith

-- The session as the closure of terminateOnce hands it to the emission.
abbrev stamped : String → ℕ → CallSession → CallSession
stamped reason now s = swap_final_code (default_sip_code_for_reason reason) (record s {
  terminate_once = true;
  terminal = some (record { end_time = now; term_reason = reason });
})

stamped_code :
    (reason : String) (now : ℕ) (s : CallSession)
    → ((stamped reason now s).sip_final_code ≡ final_code s reason)
      × (((stamped reason now s).sip_final_code == 0) ≡ false)
unfolding swap_final_code
stamped_code reason now s = ground (arith, default_sip_code_pos reason)

-- The event that the end of a subscribed call hands over.
final_event : StatusCallbackConfig → String → String → ℕ → CallSession → CallbackEvent
final_event cfg e reason now s =
    let t = (next_sequence_number (stamped reason now s)).0 in
    record {
      url = cfg.url;
      method = method_or_post cfg.method;
      form = terminal_form t (twilio_status_from_term_reason reason) now s.seq_counter;
      event = e;
      trusted = cfg.trusted;
    }

final_event-Says :
    (cfg : StatusCallbackConfig) (e reason : String) (now : ℕ) (s : CallSession)
    → Says s reason now (final_event cfg e reason now s)
unfolding final_event next_sequence_number swap_final_code
final_event-Says cfg e reason now s =
    let t = (next_sequence_number (stamped reason now s)).0 in
    let (code, some_code) = stamped_code reason now s in
    let (a, b, c, d, f, g) =
      form_says t (twilio_status_from_term_reason reason) now s.seq_counter some_code in
    record {
      call_sid = a;
      call_status = b;
      timestamp = c;
      sequence = d;
      code = f ∙ ap (λ (n : ℕ). some (number n)) code;
      talk = g;
    }

-- A call that ends with a client and a subscription which resolves its status to an event `e` hands
-- over exactly one event: under the subscribed URL and trust, by its method or POST, labelled `e`,
-- and its form tells the status of the reason, the time of the end, the next sequence number, the
-- recorded SIP code or the one of the reason, and the talk time if the call was answered.
pub final_event_sent :
    (s : CallSession) (cfg : StatusCallbackConfig) (reason e : String) (now : ℕ)
    → s.terminate_once ≡ false
    → s.has_status_client ≡ true
    → s.status_callback ≡ some cfg
    → resolve_event_name cfg.events (twilio_status_from_term_reason reason) ≡ some e
    → (evt : CallbackEvent) × ((mark_terminated reason now s).enqueued ≡ s.enqueued ++ evt ∷ [])
      × (evt.url ≡ cfg.url)
      × (evt.method ≡ (if str_eq cfg.method "" then "POST" else cfg.method))
      × (evt.event ≡ e)
      × (evt.trusted ≡ cfg.trusted)
      × Says s reason now evt
unfolding mark_terminated stamp_terminated emit_terminal_status_callback enqueue_terminal
    next_sequence_number mark_emitted swap_final_code final_event
final_event_sent s cfg reason e now once client sub resolved = (
  final_event cfg e reason now s,
  ground arith,
  refl,
  refl,
  refl,
  refl,
  final_event-Says cfg e reason now s,
)

-- Without a client, without a subscription, or with one that resolves the status to no event, the end
-- of a call hands over nothing.
pub final_event_silent :
    (s : CallSession) (reason : String) (now : ℕ)
    → (s.has_status_client ≡ false)
      ⊎ (s.status_callback ≡ none)
      ⊎ ((cfg : StatusCallbackConfig) × (s.status_callback ≡ some cfg)
          × (resolve_event_name cfg.events (twilio_status_from_term_reason reason) ≡ none))
    → (mark_terminated reason now s).enqueued ≡ s.enqueued
unfolding mark_terminated stamp_terminated emit_terminal_status_callback swap_final_code
final_event_silent s reason now h = ground arith
