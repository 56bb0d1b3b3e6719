-- ===== src/Api/Calls.antt =====
-- go/internal/api/calls.go, the handlers of one call, with CallSidRE of identity/call_sid.go. `decode`
-- stands for encoding/xml: the size of a body, its tokens and how they end; `parse_url` for net/url;
-- `send` for net/http. The synchronous path is for the tests of the program.
pub mod Form
pub mod Refused
use sipgate_sip_stream_bridg.Prelude.{
  ℕ, zero, suc, ◌+◌, ◌-◌, ◌<◌, drop, String, Bool, true, false, not, ◌&&◌, ◌||◌, Option, none, some,
  List, [], ◌∷◌, ◌++◌, ◌⊎◌, inl, inr, ltb, leb, ◌==◌, str_eq, if◌then◌else◌, length,
}
use sipgate_sip_stream_bridg.Prelude.Text.{Text, codes, same, is_empty, starts_with}
use sipgate_sip_stream_bridg.Prelude.Dict.{load}
use sipgate_sip_stream_bridg.Webhook.Ssrf.{Url, UrlError, validate_callback_url}
use sipgate_sip_stream_bridg.Webhook.Fetch.{
  FetchTarget, FetchResult, FetchError, Send, fetch_with_fallback,
}
use sipgate_sip_stream_bridg.Webhook.Subscription.{terminal_events}
use sipgate_sip_stream_bridg.Bridge.Call.{
  CallSession, StatusCallbackConfig, set_status_callback, is_active,
}
use sipgate_sip_stream_bridg.Bridge.Call.Lifecycle.{terminate}
use sipgate_sip_stream_bridg.Bridge.Manager.{CallManager, BridgeCall, get_by_call_sid, update}
use sipgate_sip_stream_bridg.Twiml.Xml.{Tokens, TwimlError, Outcome, ok, failed, out_of_fuel}
use sipgate_sip_stream_bridg.Twiml.Events.{parse_status_callback_events}
use sipgate_sip_stream_bridg.Twiml.Verbs.{Response}
use sipgate_sip_stream_bridg.Twiml.Parse.Elements.{Stop, parse}
use sipgate_sip_stream_bridg.Api.Calls.Form.{
  ApiError, invalid_params, not_found, call_not_in_progress, twiml_parse_failure,
  http_retrieval_failure, ModifyForm, ModifyOpts, or_post, parse_modify_opts, modify_kind,
}

abbrev pub is_hex : ℕ → Bool
is_hex c = (leb b'0' c && leb c b'9') || (leb b'a' c && leb c b'f')

abbrev pub all_hex : Text → Bool
all_hex [] = true
all_hex (c ∷ s) = is_hex c && all_hex s

-- CallSidRE
unfoldable pub is_call_sid : Text → Bool
unfolding starts_with
is_call_sid s = starts_with (codes "CA") s && length s == 34 && all_hex (drop 2 s)

-- `outcomes` is twiml_modify_total by its labels, kind and outcome.
pub record Api : Type 0 where
  pub manager : CallManager
  pub outcomes : List (String × String)

pub data Reply : Type 0 where
  call_json : BridgeCall → Reply
  error_json : ApiError → Reply

-- The document that the handler leaves to run on a session, in the background.
pub record Background : Type 0 where
  pub session : ℕ
  pub doc : Response

pub record Handled : Type 0 where
  pub api : Api
  pub reply : Reply
  pub background : Option Background

abbrev outcome : String → String → Api → Api
outcome kind result a = record a { outcomes = a.outcomes ++ (kind, result) ∷ [] }

-- writeCallJSON: the call as it is now.
unfoldable pub write_call_json : String → Api → Reply
write_call_json sid a = elim (get_by_call_sid sid a.manager) [
  | none ↦ error_json not_found
  | some call ↦ call_json call
]

-- What the other goroutines, a dispatch that has just been started included, do to the calls before the
-- call is fetched again for the answer. It may be gone then.
abbrev pub meanwhile : (CallManager → CallManager) → Api → Api
meanwhile others a = record a { manager = others a.manager }

abbrev pub answer : (CallManager → CallManager) → String → Api → Handled
answer others sid a = record {
  api = meanwhile others a;
  reply = write_call_json sid (meanwhile others a);
  background = none;
}

abbrev pub refuse : ApiError → Api → Handled
refuse e a = record { api = a; reply = error_json e; background = none }

-- The session of an active call, if it is active still.
unfoldable pub live_session : String → CallManager → Option ℕ
live_session sid m = elim (load sid m.call_sid_idx) [
  | none ↦ none
  | some r ↦ if is_active (m.heap r) then some r else none
]

abbrev set_session : ℕ → CallSession → Api → Api
set_session r s a = record a { manager = record a.manager { heap = update a.manager.heap r s } }

-- The subscription of the request; without events it is for the terminal ones.
unfoldable pub subscribe : ModifyOpts → Option ℕ → Api → Api
unfolding set_status_callback terminal_events
subscribe o none a = a
subscribe o (some r) a =
    if str_eq o.status_callback ""
    then a
    else set_session r
        (set_status_callback
          (some (record {
            url = o.status_callback;
            method = o.status_callback_method;
            events = elim o.status_callback_event [ [] ↦ terminal_events | e ∷ es ↦ e ∷ es ];
            trusted = false;
          }))
          (a.manager.heap r))
        a

unfoldable pub complete :
    (CallManager → CallManager) → (ℕ → Option String) → ℕ → String → Option ℕ → Api → Handled
unfolding write_call_json terminate
complete others fails now sid none a = answer others sid (outcome "status_completed" "ok" a)
complete others fails now sid (some r) a = answer others sid (
    outcome "status_completed" "terminated"
      (set_session r (terminate fails "completed" now (a.manager.heap r)).0 a))

-- The TwiML of the request, or of its Url.
unfoldable pub twiml_body : Send → ModifyOpts → FetchError ⊎ Text
unfolding is_empty fetch_with_fallback
twiml_body send o =
    let fetched =
      fetch_with_fallback send (record { url = o.url; method = o.method; body = "" })
        (record { url = o.fallback_url; method = or_post o.fallback_method; body = "" }) in
    if is_empty o.twiml
    then (if str_eq o.url "" then inr [] else elim fetched [ inl e ↦ inl e | inr r ↦ inr r.body ])
    else inr o.twiml

unfoldable pub start_document :
    (CallManager → CallManager) → String → ℕ → ModifyOpts → Outcome Response → Api → Handled
unfolding modify_kind write_call_json
start_document others sid r o (ok doc) a = record {
  api = meanwhile others (outcome (modify_kind (some o)) "ok" a);
  reply = write_call_json sid (meanwhile others (outcome (modify_kind (some o)) "ok" a));
  background = some (record { session = r; doc = doc });
}
start_document others sid r o (failed e) a =
    refuse twiml_parse_failure (outcome (modify_kind (some o)) "parse_error" a)
start_document others sid r o out_of_fuel a =
    refuse twiml_parse_failure (outcome (modify_kind (some o)) "parse_error" a)

module _ (decode : Text → Tokens × Stop) (parse_url : String → Option Url) (send : Send)
    (others : CallManager → CallManager) (fails : ℕ → Option String) (now : ℕ) where
  unfoldable pub run_document : String → ℕ → ModifyOpts → FetchError ⊎ Text → Api → Handled
  unfolding start_document parse
  run_document sid r o (inl e) a = refuse http_retrieval_failure (outcome "url" "fetch_error" a)
  run_document sid r o (inr body) a =
      let (tokens, stop) = decode body in
      start_document others sid r o (parse (length body) tokens stop) a

  -- After the subscription: Status=completed, or a document for a live session.
  unfoldable pub modify_live : String → ModifyOpts → Option ℕ → Api → Handled
  unfolding complete run_document twiml_body modify_kind
  modify_live sid o none a =
      if str_eq o.status "completed"
      then complete others fails now sid none a
      else refuse call_not_in_progress (outcome (modify_kind (some o)) "invalid_params" a)
  modify_live sid o (some r) a =
      if str_eq o.status "completed"
      then complete others fails now sid (some r) a
      else run_document sid r o (twiml_body send o) a

  abbrev only_subscribes : ModifyOpts → Bool
  only_subscribes o =
      not (str_eq o.status_callback "") && is_empty o.twiml && str_eq o.url "" && str_eq o.status ""

  -- A call that was found, from the subscription on.
  unfoldable pub modify_found : String → ModifyOpts → Api → Handled
  unfolding subscribe modify_live live_session is_empty
  modify_found sid o a =
      let live = live_session sid a.manager in
      let b = subscribe o live a in
      if only_subscribes o
      then answer others sid (outcome "status_callback" "ok" b)
      else modify_live sid o live b

  unfoldable pub modify_known : String → ModifyOpts → Option BridgeCall → Api → Handled
  unfolding modify_found
  modify_known sid o none a = refuse not_found a
  modify_known sid o (some call) a = modify_found sid o a

  unfoldable pub modify_parsed : String → ApiError ⊎ ModifyOpts → Api → Handled
  unfolding modify_known is_call_sid modify_kind get_by_call_sid
  modify_parsed sid (inl e) a = refuse e (outcome (modify_kind none) "invalid_params" a)
  modify_parsed sid (inr o) a =
      if is_call_sid (codes sid)
      then modify_known sid o (get_by_call_sid sid a.manager) a
      else refuse not_found a

  unfoldable pub modify_call_handler : String → ModifyForm → Api → Handled
  unfolding modify_parsed parse_modify_opts
  modify_call_handler sid form a = modify_parsed sid (parse_modify_opts parse_url form) a

-- getCallHandler
unfoldable pub get_call_handler : String → Api → Reply
unfolding is_call_sid write_call_json
get_call_handler sid a =
    if is_call_sid (codes sid) then write_call_json sid a else error_json not_found
