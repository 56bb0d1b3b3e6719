-- ===== src/Sip/Forwarder/Emit.antt =====
-- go/internal/sip/forwarder.go: the status callbacks of a dialled leg, and the records of a failure.
-- `enqueued` collects what is handed to StatusClient.Enqueue and `drained` the calls of DrainAndClose;
-- the counters of the metrics are the lists of the labels that they were incremented under.
use sipgate_sip_stream_bridg.Prelude.{
  ℕ, ◌+◌, ◌%◌, ◌^◌, String, Bool, not, ◌&&◌, ◌||◌, Option, none, some, List, [], ◌∷◌, ◌++◌, leb,
  ltb, ◌==◌, str_eq, if◌then◌else◌,
}
use sipgate_sip_stream_bridg.Prelude.Text.{Text, codes, is_empty}
use sipgate_sip_stream_bridg.Prelude.Dict.{Dict, load, store, delete}
use sipgate_sip_stream_bridg.Webhook.Subscription.{subscription_matches}
use sipgate_sip_stream_bridg.Observability.{bucket_forward_reason, bucket_outcome}
use sipgate_sip_stream_bridg.Sip.Guardrails.{
  Guardrails, DialError, toll_fraud_blocked, session_rate_limit, global_rate_limit,
}
use sipgate_sip_stream_bridg.Sip.Forwarder.CallerId.{SipUri, is_from_rejection_reason}

-- A value of the form: text, a telephone number or URI, a number in decimal, a time.
pub data FormValue : Type 0 where
  text : String → FormValue
  address : Text → FormValue
  number : ℕ → FormValue
  stamp : ℕ → FormValue

pub record LegEvent : Type 0 where
  pub url : Text
  pub method : Text
  pub form : Dict FormValue
  pub event : String

-- `timeout` and `time_limit` are nanoseconds, 0 for a duration that is not above 0. `has_dtmf` says
-- that DTMFChan is not nil.
pub record DialOpts : Type 0 where
  pub caller_id : Text
  pub timeout : ℕ
  pub time_limit : ℕ
  pub hangup_on_star : Bool
  pub has_dtmf : Bool
  pub caller_from : Text
  pub status_callback : Text
  pub status_callback_method : Text
  pub status_callback_events : List String

pub record DialResult : Type 0 where
  pub status : String
  pub reason : String
  pub dial_call_sid : String
  pub duration : ℕ
  pub sip_final_code : ℕ
  pub dialed_target : Text
  pub auth_challenge : String

-- What the dialog of a dial does on the wire, with the INVITE's addresses, display name,
-- P-Preferred-Identity and body.
pub data SipAction : Type 0 where
  invite : SipUri → SipUri → Text → Option SipUri → List ℕ → SipAction
  ack bye close : SipAction

pub record ForwarderConfig : Type 0 where
  pub dial_default_caller_id : Text
  pub dial_caller_id_country_code : Text
  pub dial_ring_timeout_s : ℕ
  pub sip_user : Text
  pub sip_domain : Text
  pub sip_outbound_target_port : ℕ
  pub has_status_client : Bool
  pub account_sid : String

pub record Forwarder : Type 0 where
  pub cfg : ForwarderConfig
  pub guardrails : Guardrails
  pub leg_seqs : Dict ℕ
  pub enqueued : List (String × LegEvent)
  pub drained : List String
  pub attempts : ℕ
  pub successes : ℕ
  pub failed : List String
  pub outcomes : List String
  pub challenges : List String
  pub sip : List SipAction

unfoldable pub counter : String → Forwarder → ℕ
counter sid f = elim (load sid f.leg_seqs) [ none ↦ 0 | some n ↦ n ]

unfoldable pub next_leg_sequence : String → Forwarder → Forwarder × ℕ
unfolding counter
next_leg_sequence sid f =
    (record f { leg_seqs = store sid ((counter sid f + 1) % 2 ^ 64) f.leg_seqs }, counter sid f)

unfoldable pub release_leg_sequence : String → Forwarder → Forwarder
release_leg_sequence sid f = record f { leg_seqs = delete sid f.leg_seqs }

-- Which leg an event is about: the caller's CallSid, the leg's own, and the number it dials.
pub record LegId : Type 0 where
  pub caller_sid : String
  pub dial_call_sid : String
  pub target : Text

abbrev parent_field : String → Dict FormValue
parent_field caller_sid =
    if str_eq caller_sid "" then [] else ("ParentCallSid", text caller_sid) ∷ []

unfoldable pub leg_form : ForwarderConfig → DialOpts → String → LegId → ℕ → ℕ → Dict FormValue
leg_form cfg opts call_status leg seq now =
    ("CallSid", text leg.dial_call_sid)
    ∷ ("AccountSid", text cfg.account_sid)
    ∷ ("From", address opts.caller_from)
    ∷ ("To", address leg.target)
    ∷ ("Caller", address opts.caller_from)
    ∷ ("Called", address leg.target)
    ∷ ("Direction", text "outbound-dial")
    ∷ ("ApiVersion", text "2010-04-01")
    ∷ ("CallStatus", text call_status)
    ∷ ("Timestamp", stamp now)
    ∷ ("SequenceNumber", number seq)
    ∷ ("CallbackSource", text "call-progress-events")
    ∷ parent_field leg.caller_sid

unfoldable pub leg_event : ForwarderConfig → DialOpts → String → String → LegId → ℕ → ℕ → LegEvent
unfolding leg_form
leg_event cfg opts name call_status leg seq now = record {
  url = opts.status_callback;
  method =
      if is_empty opts.status_callback_method then codes "POST" else opts.status_callback_method;
  form = leg_form cfg opts call_status leg seq now;
  event = name;
}

-- Whether emitDialEvent gets past its early returns.
unfoldable pub is_subscribed : ForwarderConfig → DialOpts → String → Bool
unfolding subscription_matches
is_subscribed cfg opts name =
    cfg.has_status_client
    && not (is_empty opts.status_callback)
    && subscription_matches opts.status_callback_events name

unfoldable pub send_event : DialOpts → String → String → LegId → ℕ → Forwarder × ℕ → Forwarder
unfolding leg_event
send_event opts name call_status leg now (f, seq) = record f {
  enqueued =
      f.enqueued ++ (leg.dial_call_sid, leg_event f.cfg opts name call_status leg seq now) ∷ [];
}

-- emitDialEvent; an error of Enqueue is only logged.
unfoldable pub emit_dial_event : DialOpts → String → String → LegId → ℕ → Forwarder → Forwarder
unfolding is_subscribed send_event next_leg_sequence
emit_dial_event opts name call_status leg now f =
    if is_subscribed f.cfg opts name
    then send_event opts name call_status leg now (next_leg_sequence leg.dial_call_sid f)
    else f

unfoldable pub dial_terminal_event_name : String → String
dial_terminal_event_name status =
    if str_eq status "answered" || str_eq status "hangup-star"
    then "completed"
    else if str_eq status "busy"
    then "busy"
    else if str_eq status "no-answer"
    then "no-answer"
    else if str_eq status "canceled"
    then "canceled"
    else "failed"

unfoldable pub guardrails_reason : DialError → String
guardrails_reason (toll_fraud_blocked t) = "toll_fraud"
guardrails_reason session_rate_limit = "rate_limit"
guardrails_reason global_rate_limit = "rate_limit"

-- dispatchFinalResponse, of a response or of nil.
unfoldable pub classify : ℕ → Text → String × String
unfolding is_from_rejection_reason
classify code reason =
    if code == 486 || code == 600
    then ("busy", "busy")
    else if code == 408 || code == 480 || code == 487
    then ("no-answer", "no_answer")
    else if code == 403 && is_from_rejection_reason reason
    then ("failed", "caller_id_rejected")
    else if code == 603
    then ("failed", "rejected")
    else if leb 500 code && ltb code 600
    then ("failed", "trunk_5xx")
    else if code == 401 || code == 407
    then ("failed", "auth_failed")
    else ("failed", "error")

unfoldable pub dispatch_final_response : Option (ℕ × Text) → DialResult → DialResult
unfolding classify
dispatch_final_response none r = record r { status = "failed"; reason = "error" }
dispatch_final_response (some (code, reason)) r = record r {
  sip_final_code = code;
  status = (classify code reason).0;
  reason = (classify code reason).1;
}

abbrev or_else : String → String → String
or_else s default = if str_eq s "" then default else s

-- What recordFailure makes of the result, from the error's message.
unfoldable pub settle_result : Text → DialResult → DialResult
unfolding bucket_forward_reason
settle_result message r = record r {
  reason = or_else (or_else r.reason (bucket_forward_reason message)) "error";
  status = or_else r.status "failed";
}

abbrev pub leg_of : String → DialResult → LegId
leg_of caller_sid r = record {
  caller_sid = caller_sid;
  dial_call_sid = r.dial_call_sid;
  target = r.dialed_target;
}

-- The end of a leg: its counter goes, and its queue is drained if there is a StatusClient.
unfoldable pub finish_leg : String → Forwarder → Forwarder
unfolding release_leg_sequence
finish_leg sid f = record (release_leg_sequence sid f) {
  drained = if f.cfg.has_status_client then f.drained ++ sid ∷ [] else f.drained;
}

unfoldable pub count_failure : DialResult → Forwarder → Forwarder
unfolding bucket_outcome
count_failure r f = record f {
  failed = f.failed ++ r.reason ∷ [];
  outcomes = f.outcomes ++ bucket_outcome r.status ∷ [];
}

unfoldable pub record_failure :
    Text → ℕ → DialOpts → String → DialResult → Forwarder → Forwarder × DialResult
unfolding settle_result dial_terminal_event_name emit_dial_event finish_leg count_failure
record_failure message now opts caller_sid result f =
    let r = settle_result message result in
    let name = dial_terminal_event_name r.status in
    (
      finish_leg r.dial_call_sid
          (emit_dial_event opts name name (leg_of caller_sid r) now (count_failure r f)),
      r,
    )
