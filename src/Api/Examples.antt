-- ===== src/Api/Examples.antt =====
-- Tests of go/internal/api.
use sipgate_sip_stream_bridg.Prelude.{
  ℕ, ◌≡◌, refl, String, true, Option, none, some, List, [], ◌∷◌, inl, inr, arith,
}
use sipgate_sip_stream_bridg.Prelude.Text.{Text, codes}
use sipgate_sip_stream_bridg.Prelude.Int.{pos}
use sipgate_sip_stream_bridg.Webhook.Ssrf.{Url}
use sipgate_sip_stream_bridg.Webhook.Fetch.{Send, request}
use sipgate_sip_stream_bridg.Bridge.Manager.Examples.{quiet_call, manager}
use sipgate_sip_stream_bridg.Twiml.Xml.{Tokens}
use sipgate_sip_stream_bridg.Twiml.Verbs.{Response, dial, no_dial}
use sipgate_sip_stream_bridg.Twiml.Dispatch.{dispatch}
use sipgate_sip_stream_bridg.Bridge.Call.Callee.{Outside}
use sipgate_sip_stream_bridg.Sip.Forwarder.Emit.{DialOpts}
use sipgate_sip_stream_bridg.Sip.Forwarder.Invite.{World, rejected, caller_gone}
use sipgate_sip_stream_bridg.Sip.Forwarder.Examples.{forwarder}
use sipgate_sip_stream_bridg.Twiml.Parse.Elements.{Stop, syntax_error}
use sipgate_sip_stream_bridg.Api.MidCall.{Live, adapter}
use sipgate_sip_stream_bridg.Api.MidCall.PortKept.{dispatch-SamePorts}
use sipgate_sip_stream_bridg.Bridge.Ports.Same.{SamePorts}
use sipgate_sip_stream_bridg.Api.Page.{
  serialize_page, envelope, clamp_size, clamp_page, clip, slice,
}
use sipgate_sip_stream_bridg.Api.Page.Covered.{serialize_page_lem, first_pieces, first_pieces_lem}
use sipgate_sip_stream_bridg.Api.Calls.Form.{ModifyForm, invalid_params}
use sipgate_sip_stream_bridg.Api.Calls.{Api, modify_call_handler}
use sipgate_sip_stream_bridg.Api.Calls.Refused.{modify_call_handler-Quiet}

abbrev live : Live
live = record {
  session = quiet_call;
  pool = record { ports = 10_000 ∷ 10_001 ∷ []; capacity = 3 };
  forwarder = forwarder;
  actions = [];
  clock = 9;
}

abbrev outside : Outside
outside = record {
  marshal = λ offer. some (118 ∷ []);
  unmarshal = λ answer. none;
  offered_at = 5;
  socket = true;
  message = λ e. [];
  answer_error = [];
}

-- The callee is busy.
abbrev busy : (opts : DialOpts) → World opts
busy opts = record {
  now = 100;
  initiated_at = 5;
  ringing_at = 6;
  answered_at = 7;
  ended_at = 8;
  dial_call_sid = "CA7";
  responses = 180 ∷ 486 ∷ [];
  late = [];
  invite_end = rejected (some (486, codes "Busy Here")) [] true;
  ack_error = none;
  wake = caller_gone;
  talk_time = 0;
}

abbrev dials : Response
dials = record { verbs = dial (record no_dial { number_text = codes "+4930" }) ∷ [] }

dispatch-SamePorts_example :
    SamePorts live.pool
      (dispatch (adapter (λ d. none) "10.0.0.1" outside busy) (some dials) live).0.pool
dispatch-SamePorts_example =
    dispatch-SamePorts (λ d. none) "10.0.0.1" outside busy (some dials) live (omega arith)

abbrev numbers : List ℕ
numbers = 7 ∷ 8 ∷ 9 ∷ []

serialize_page_lem_example :
    serialize_page (λ (n : ℕ). n) numbers (pos 1) (pos 2)
    ≡ some (record {
      page = 1;
      page_size = 2;
      start = 2;
      end = 3;
      next_page = none;
      previous_page = some 0;
      calls = 9 ∷ [];
    })
serialize_page_lem_example =
    serialize_page_lem (λ (n : ℕ). n) numbers (pos 1) (pos 2) 1 2 refl
      (inr (inl (omega arith, omega arith, refl))) (omega arith)

first_two : first_pieces 2 numbers 2 ≡ numbers
first_two = first_pieces_lem 2 numbers 2

-- A page number whose product with the size wraps below 0 makes the slice panic.
page_panics : serialize_page (λ (n : ℕ). n) (7 ∷ []) (pos 9_223_372_036_854_775_807) (pos 2) ≡ none
unfolding serialize_page clamp_size clamp_page clip slice envelope
page_panics = refl

abbrev api : Api
api = record { manager = manager; outcomes = [] }

abbrev malformed_form : ModifyForm
malformed_form = record {
  well_formed = true;
  twiml = codes "<Response";
  url = "";
  method = "";
  status = "paused";
  fallback_url = "";
  fallback_method = "";
  status_callback = "";
  status_callback_method = [];
  status_callback_event = [];
}

abbrev decode : Text → Tokens × Stop
decode body = ([], syntax_error (codes "unexpected EOF"))

abbrev parse_url : String → Option Url
parse_url s = none

abbrev send : Send
send t = inl request

modify_call_handler-Quiet_example :
    ((modify_call_handler decode parse_url send
        (λ m. m)
        (λ d. none)
        5
        "CA1"
        malformed_form
        api).api.manager
      ≡ manager)
    × ((modify_call_handler decode parse_url send
          (λ m. m)
          (λ d. none)
          5
          "CA1"
          malformed_form
          api).background
        ≡ none)
unfolding modify_call_handler
modify_call_handler-Quiet_example =
    modify_call_handler-Quiet decode parse_url send (λ m. m) (λ d. none) 5 "CA1" malformed_form api
      invalid_params refl (λ h. cc) refl
