-- ===== src/Api/MidCall.antt =====
-- go/internal/api/midcall_adapter.go: a live call as the target of a TwiML document. The adapter's
-- state is what it reaches: the session, the manager's port pool, the forwarder, and the action
-- callbacks that were posted. What the network does in a dial is an argument. Of an error of a dial
-- only that it is one is kept.
pub mod PortKept
use sipgate_sip_stream_bridg.Prelude.{
  ℕ, String, Bool, true, false, Option, none, some, List, [], ◌∷◌, ◌++◌, ◌⊎◌, inl, inr, ◌/◌, ◌||◌,
  str_eq, if◌then◌else◌,
}
use sipgate_sip_stream_bridg.Prelude.Text.{Text, codes, is_empty, same, upper}
use sipgate_sip_stream_bridg.Prelude.Int.{is_negative}
use sipgate_sip_stream_bridg.Prelude.Dict.{Dict}
use sipgate_sip_stream_bridg.Bridge.Leg.{Leg, new_callee_leg}
use sipgate_sip_stream_bridg.Bridge.Call.{CallSession}
use sipgate_sip_stream_bridg.Bridge.Call.Callee.{Outside, callee_leg}
use sipgate_sip_stream_bridg.Bridge.Call.Lifecycle.{close_stream, set_leg, terminate}
use sipgate_sip_stream_bridg.Bridge.Ports.{PortPool, acquire, release}
use sipgate_sip_stream_bridg.Twiml.Dispatch.{
  second, DialOpts, DialResult, DialTarget, MidCallTarget,
}
use sipgate_sip_stream_bridg.Twiml.Events.{strings}
use sipgate_sip_stream_bridg.Sip.Forwarder.Emit
use sipgate_sip_stream_bridg.Sip.Forwarder.Emit.{Forwarder, FormValue, text, number}
use sipgate_sip_stream_bridg.Sip.Forwarder.Invite.{World}
use sipgate_sip_stream_bridg.Sip.Forwarder.Dial.{Run, dial}

-- A request of the signing client; `body` is the form of a POST.
pub record ActionPost : Type 0 where
  pub url : Text
  pub method : Text
  pub body : Dict FormValue

-- `clock` is the time of the call that comes next.
pub record Live : Type 0 where
  pub session : CallSession
  pub pool : PortPool
  pub forwarder : Forwarder
  pub actions : List ActionPost
  pub clock : ℕ

-- dialHandle; its leg is the session's second one.
pub record DialHandle : Type 0 where
  pub port : ℕ

unfoldable pub twilio_dial_call_status : String → String
twilio_dial_call_status status =
    if str_eq status "answered" || str_eq status "hangup-star"
    then "completed"
    else if str_eq status "busy"
    then "busy"
    else if str_eq status "no-answer"
    then "no-answer"
    else if str_eq status "canceled"
    then "canceled"
    else "failed"

-- PrepareDial with the port that AcquirePort gives, or its error.
unfoldable pub install_leg :
    String → CallSession → Live → PortPool × Option ℕ → Live × (String ⊎ DialHandle)
unfolding set_leg new_callee_leg
install_leg contact_ip s l (pool, none) =
    (record l { session = s; pool = pool }, inl "PrepareDial: AcquirePort")
install_leg contact_ip s l (pool, some port) = (
  record l { session = set_leg 1 (some (new_callee_leg port contact_ip)) s; pool = pool },
  inr (record { port = port }),
)

-- The stream is closed first. CloseStream of the session has no error.
unfoldable pub prepare_dial : String → DialOpts → Live → Live × (String ⊎ DialHandle)
unfolding install_leg close_stream acquire
prepare_dial contact_ip opts l =
    install_leg contact_ip (close_stream "dial-forward" l.session) l (acquire l.pool)

unfoldable pub release_handle : DialHandle → Live → Live
unfolding release
release_handle h l = record l { pool = release h.port l.pool }

unfoldable pub terminate_call : (ℕ → Option String) → String → Live → Live × Option String
unfolding terminate
terminate_call fails reason l =
    let (s, error) = terminate fails reason l.clock l.session in (record l { session = s }, error)

-- The options for Forwarder.Dial: a negative duration counts as none, and DTMFChan is nil.
unfoldable pub sip_opts : CallSession → DialOpts → Emit.DialOpts
unfolding is_negative
sip_opts s opts = record {
  caller_id = opts.caller_id;
  timeout = if is_negative opts.timeout then 0 else opts.timeout;
  time_limit = if is_negative opts.time_limit then 0 else opts.time_limit;
  hangup_on_star = opts.hangup_on_star;
  has_dtmf = false;
  caller_from = codes s.from;
  status_callback = opts.status_callback;
  status_callback_method = opts.status_callback_method;
  status_callback_events = strings opts.status_callback_events;
}

unfoldable pub result_of : Emit.DialResult → DialResult
result_of r = record {
  status = r.status;
  reason = r.reason;
  dial_call_sid = r.dial_call_sid;
  duration = r.duration;
  sip_final_code = r.sip_final_code;
  dialed_target = r.dialed_target;
}

unfoldable pub action_form : CallSession → Emit.DialResult → Dict FormValue
unfolding twilio_dial_call_status
action_form s r =
    ("DialCallStatus", text (twilio_dial_call_status r.status))
    ∷ ("DialCallSid", text r.dial_call_sid)
    ∷ ("DialCallDuration", number (r.duration / second))
    ∷ ("Direction", text "outbound-dial")
    ∷ ("CallSid", text s.call_sid)
    ∷ ("AccountSid", text s.account_sid)
    ∷ []

abbrev or_post : Text → Text
or_post method = upper (if is_empty method then codes "POST" else method)

-- fireActionCallback with an actionPoster; what becomes of the request is only logged.
unfoldable pub fire_action_callback : Text → Text → Emit.DialResult → Live → Live
unfolding action_form same
fire_action_callback url method r l = if is_empty url then l else record l {
  actions =
      l.actions
      ++ record {
        url = url;
        method = or_post method;
        body = if same (or_post method) (codes "POST") then action_form l.session r else [];
      }
        ∷ [];
}

unfoldable pub dialled :
    DialOpts → Live → Run CallSession × Bool → Live × (Option DialResult × Option String)
unfolding fire_action_callback result_of
dialled opts l (r, failed) = (
  fire_action_callback opts.action opts.method r.result
      (record l { session = r.leg; forwarder = r.forwarder }),
  (some (result_of r.result), if failed then some "forwarder" else none),
)

-- The leg of the handle is the session's second one, which PrepareDial has set.
unfoldable pub perform_dial :
    Outside
    → ((opts : Emit.DialOpts) → World opts)
    → Text
    → DialOpts
    → DialHandle
    → Live
    → Live × (Option DialResult × Option String)
unfolding dialled callee_leg sip_opts dial
perform_dial outside world target opts handle l =
    let sip = sip_opts l.session opts in
    dialled opts l
      (dial (callee_leg outside) sip l.session.call_sid (world sip) target l.forwarder l.session)

-- newMidCallAdapter
unfoldable pub adapter :
    (ℕ → Option String)
    → String
    → Outside
    → ((opts : Emit.DialOpts) → World opts)
    → MidCallTarget Live DialHandle
unfolding terminate_call prepare_dial perform_dial release_handle
adapter fails contact_ip outside world = record {
  terminate = terminate_call fails;
  dialing = some (record {
    prepare_dial = prepare_dial contact_ip;
    perform_dial = perform_dial outside world;
    release = release_handle;
  });
}
