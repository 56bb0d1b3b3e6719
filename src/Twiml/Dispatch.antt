-- ===== src/Twiml/Dispatch.antt =====
-- go/internal/twiml/dispatch.go, verb_hangup.go and verb_dial.go: the verbs of a document run against
-- a call. The call is an interface, here a record of its operations on a state `S`, with the handles
-- `H` of prepared dials; an error is its text. Log lines are left out.
pub mod Order
pub mod Durations
use sipgate_sip_stream_bridg.Prelude.{
  ℕ, ◌*◌, String, Bool, true, false, Option, none, some, List, [], ◌∷◌, ◌⊎◌, inl, inr, str_eq,
  if◌then◌else◌,
}
use sipgate_sip_stream_bridg.Prelude.Text.{Text, is_empty}
use sipgate_sip_stream_bridg.Prelude.Int.{ℤ, pos, bits_times}
use sipgate_sip_stream_bridg.Twiml.Verbs.{
  Number, Dial, Verb, connect, dial, hangup, redirect, reject, unknown_verb, Response,
  resolve_dial_target,
}

abbrev pub second : ℕ
second = 1_000_000_000

-- The durations are the 64 bits of a time.Duration.
pub record DialOpts : Type 0 where
  pub caller_id : Text
  pub timeout : ℕ
  pub time_limit : ℕ
  pub hangup_on_star : Bool
  pub action : Text
  pub method : Text
  pub status_callback : Text
  pub status_callback_method : Text
  pub status_callback_events : List Text

pub record DialResult : Type 0 where
  pub status : String
  pub reason : String
  pub dial_call_sid : String
  pub duration : ℕ
  pub sip_final_code : ℕ
  pub dialed_target : Text

pub record DialTarget {ℓ} (S H : Type ℓ) : Type ℓ where
  pub prepare_dial : DialOpts → S → S × (String ⊎ H)
  pub perform_dial : Text → DialOpts → H → S → S × (Option DialResult × Option String)
  pub release : H → S → S

-- `dialing` is what `t.(DialTarget)` gives.
pub record MidCallTarget {ℓ} (S H : Type ℓ) : Type ℓ where
  pub terminate : String → S → S × Option String
  pub dialing : Option (DialTarget S H)

unfoldable pub int_ptr_or : Option ℤ → ℕ → ℤ
int_ptr_or none default = pos default
int_ptr_or (some n) default = n

unfoldable pub twilio_reason : Option DialResult → String
twilio_reason none = "failed"
twilio_reason (some r) =
    if str_eq r.status "answered"
    then "completed"
    else if str_eq r.status "busy"
    then "busy"
    else if str_eq r.status "no-answer"
    then "no-answer"
    else if str_eq r.status "canceled"
    then "canceled"
    else if str_eq r.status "hangup-star"
    then "completed"
    else "failed"

abbrev first_non_empty : Text → Text → Text
first_non_empty a b = if is_empty a then b else a

abbrev first_listed : List Text → List Text → List Text
first_listed [] b = b
first_listed (x ∷ xs) b = x ∷ xs

abbrev callback_of : Dial → Option Number → Text × (Text × List Text)
callback_of d none = (d.status_callback, (d.status_callback_method, d.status_callback_events))
callback_of d (some n) = (
  first_non_empty n.status_callback d.status_callback,
  (
    first_non_empty n.status_callback_method d.status_callback_method,
    first_listed n.status_callback_events d.status_callback_events,
  ),
)

unfoldable pub dial_opts : Dial → DialOpts
unfolding int_ptr_or bits_times
dial_opts d =
    let (url, (method, events)) = callback_of d d.number in
    record {
      caller_id = d.caller_id;
      timeout = bits_times (int_ptr_or d.timeout 30) second;
      time_limit = bits_times (int_ptr_or d.time_limit 14_400) second;
      hangup_on_star = d.hangup_on_star;
      action = d.action;
      method = d.method;
      status_callback = url;
      status_callback_method = method;
      status_callback_events = events;
    }

module _ {ℓ} {S H : Type ℓ} (t : MidCallTarget S H) where
  unfoldable pub hangup_handler : S → S × Option String
  hangup_handler s = t.terminate "hangup" s

  module _ (dt : DialTarget S H) where
    -- The handler from PerformDial on. The handle is released last, when the deferred call runs.
    unfoldable pub dial_prepared : Text → DialOpts → H → S → S × Option String
    unfolding twilio_reason
    dial_prepared target opts handle s =
        let (performed, (result, _)) = dt.perform_dial target opts handle s in
        let (ended, error) = t.terminate (twilio_reason result) performed in
        (dt.release handle ended, error)

    unfoldable pub dial_with : Text → DialOpts → S × (String ⊎ H) → S × Option String
    unfolding dial_prepared
    dial_with target opts (s, inl error) = t.terminate "failed" s
    dial_with target opts (s, inr handle) = dial_prepared target opts handle s

    unfoldable pub dial_handler : Dial → S → S × Option String
    unfolding dial_with is_empty resolve_dial_target dial_opts
    dial_handler d s =
        let (target, _) = resolve_dial_target d in
        if is_empty target
        then (s, none)
        else dial_with target (dial_opts d) (dt.prepare_dial (dial_opts d) s)

  -- The walk over the verbs. Log lines apart, <Connect>, <Reject>, <Redirect> and unknown verbs are
  -- skipped, and <Dial> too if the call cannot dial.
  unfoldable pub walk_verbs : Option (DialTarget S H) → List Verb → S → S × Option String
  unfolding hangup_handler dial_handler
  walk_verbs dialing [] s = (s, none)
  walk_verbs dialing (hangup ∷ vs) s = hangup_handler s
  walk_verbs none (dial d ∷ vs) s = walk_verbs none vs s
  walk_verbs (some dt) (dial d ∷ vs) s = dial_handler dt d s
  walk_verbs dialing (_ ∷ vs) s = walk_verbs dialing vs s

  -- Dispatch; a nil document is `none`.
  unfoldable pub dispatch : Option Response → S → S × Option String
  unfolding walk_verbs
  dispatch none s = (s, none)
  dispatch (some doc) s = walk_verbs t.dialing doc.verbs s
