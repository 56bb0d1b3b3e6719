-- ===== src/Api/Calls/Form.antt =====
-- go/internal/api/calls.go, parseModifyOpts, with the errors of errors.go: the form of a POST that
-- changes a live call. Of an error its Twilio code and HTTP status are kept. `parse` stands for net/url.
use sipgate_sip_stream_bridg.Prelude.{
  ℕ, ◌+◌, String, Bool, true, false, not, ◌&&◌, Option, none, some, List, [], ◌∷◌, ◌++◌, ◌⊎◌, inl,
  inr, ltb, ◌==◌, str_eq, if◌then◌else◌, length,
}
use sipgate_sip_stream_bridg.Prelude.Text.{upper, Text, codes, same, is_empty}
use sipgate_sip_stream_bridg.Webhook.Ssrf.{Url, validate_callback_url}
use sipgate_sip_stream_bridg.Twiml.Events.{strings, event_string, parse_status_callback_events}
use sipgate_sip_stream_bridg.Twiml.Parse.Elements.{parse}

pub data ApiError : Type 0 where
  invalid_params not_found call_not_in_progress twiml_parse_failure http_retrieval_failure :
      ApiError

-- The Twilio code and the HTTP status.
unfoldable pub error_codes : ApiError → ℕ × ℕ
error_codes invalid_params = (21_218, 400)
error_codes not_found = (20_404, 404)
error_codes call_not_in_progress = (21_220, 400)
error_codes twiml_parse_failure = (12_100, 400)
error_codes http_retrieval_failure = (11_200, 400)

-- The form of a request, a missing field empty; `well_formed` says that ParseForm has no error.
pub record ModifyForm : Type 0 where
  pub well_formed : Bool
  pub twiml : Text
  pub url : String
  pub method : String
  pub status : String
  pub fallback_url : String
  pub fallback_method : String
  pub status_callback : String
  pub status_callback_method : Text
  pub status_callback_event : List Text

pub record ModifyOpts : Type 0 where
  pub twiml : Text
  pub url : String
  pub method : String
  pub status : String
  pub fallback_url : String
  pub fallback_method : String
  pub status_callback : String
  pub status_callback_method : String
  pub status_callback_event : List String

-- The events of the repeated key; `none` is an error.
unfoldable pub flatten_events : List Text → Option (List String)
unfolding event_string parse_status_callback_events
flatten_events [] = some []
flatten_events (v ∷ vs) =
    let rest = flatten_events vs in
    elim (parse_status_callback_events v) [
      | inl unknown ↦ none
      | inr events ↦ elim rest [ none ↦ none | some more ↦ some (strings events ++ more) ]
    ]

-- The method of a status callback; `none` is an error.
unfoldable pub callback_method : Text → Option String
unfolding same is_empty
callback_method m =
    if is_empty m
    then some "POST"
    else if same (upper m) (codes "POST")
    then some "POST"
    else if same (upper m) (codes "GET")
    then some "GET"
    else none

-- The subscription's method, `none` an error; without a URL the method stays unread.
abbrev callback_checked : (String → Option Url) → ModifyForm → Option String
callback_checked parse form =
    if str_eq form.status_callback ""
    then some ""
    else elim (validate_callback_url parse form.status_callback) [
      | some e ↦ none
      | none ↦ callback_method form.status_callback_method
    ]

abbrev one_if : Bool → ℕ
one_if true = 1
one_if false = 0

-- How many of Twiml, Url and Status are set.
unfoldable pub set_count : ModifyForm → ℕ
unfolding is_empty
set_count form =
    one_if (not (is_empty form.twiml))
    + one_if (not (str_eq form.url ""))
    + one_if (not (str_eq form.status ""))

-- The checks after those of the subscription, in the order of the code.
unfoldable pub check_counts : ModifyForm → Option ApiError
unfolding set_count
check_counts form =
    if ltb 1 (set_count form)
    then some invalid_params
    else if set_count form == 0 && str_eq form.status_callback ""
    then some invalid_params
    else if ltb 4_000 (length form.twiml)
    then some twiml_parse_failure
    else if not (str_eq form.status "") && not (str_eq form.status "completed")
    then some invalid_params
    else none

abbrev pub or_post : String → String
or_post m = if str_eq m "" then "POST" else m

unfoldable pub build_opts : ModifyForm → List String → String → ModifyOpts
build_opts form events method = record {
  twiml = form.twiml;
  url = form.url;
  method = or_post form.method;
  status = form.status;
  fallback_url = form.fallback_url;
  fallback_method = form.fallback_method;
  status_callback = form.status_callback;
  status_callback_method = method;
  status_callback_event = events;
}

unfoldable pub counted : ModifyOpts → Option ApiError → ApiError ⊎ ModifyOpts
counted o (some e) = inl e
counted o none = inr o

unfoldable pub finish_opts : ModifyForm → List String → Option String → ApiError ⊎ ModifyOpts
unfolding check_counts build_opts counted
finish_opts form events none = inl invalid_params
finish_opts form events (some method) = counted (build_opts form events method) (check_counts form)

unfoldable pub with_events :
    (String → Option Url) → ModifyForm → Option (List String) → ApiError ⊎ ModifyOpts
unfolding finish_opts
with_events parse form none = inl invalid_params
with_events parse form (some events) = finish_opts form events (callback_checked parse form)

-- parseModifyOpts; its log line and its SSRF counter are left out.
unfoldable pub parse_modify_opts : (String → Option Url) → ModifyForm → ApiError ⊎ ModifyOpts
unfolding flatten_events with_events
parse_modify_opts parse form =
    if form.well_formed
    then with_events parse form (flatten_events form.status_callback_event)
    else inl invalid_params

-- modifyKind; nil options are `none`.
unfoldable pub modify_kind : Option ModifyOpts → String
modify_kind none = "twiml"
modify_kind (some o) =
    if not (str_eq o.status "")
    then "status_completed"
    else if not (str_eq o.url "")
    then "url"
    else "twiml"
