-- ===== src/Api/Calls/Refused.antt =====
-- go/internal/api/calls.go: what a request that is answered with an error leaves behind.
use sipgate_sip_stream_bridg.Prelude.{
  ℕ, ◌≡◌, ◌≢◌, Option-cases, refl, sym, ap, ◌∙◌, String, Bool, true, false, Option, none, some,
  List, ◌⊎◌, inl, inr, str_eq, str_eq_iff, if◌then◌else◌, Bool-cases, length,
}
use sipgate_sip_stream_bridg.Prelude.Text.{Text, codes}
use sipgate_sip_stream_bridg.Webhook.Ssrf.{Url}
use sipgate_sip_stream_bridg.Webhook.Fetch.{FetchError, Send}
use sipgate_sip_stream_bridg.Bridge.Manager.{CallManager, BridgeCall, get_by_call_sid}
use sipgate_sip_stream_bridg.Twiml.Xml.{Tokens, Outcome, ok, failed, out_of_fuel}
use sipgate_sip_stream_bridg.Twiml.Verbs.{Response}
use sipgate_sip_stream_bridg.Twiml.Parse.Elements.{Stop, parse}
use sipgate_sip_stream_bridg.Api.Calls.Form.{
  ApiError, not_found, with_events, counted, flatten_events, ModifyForm, ModifyOpts,
  parse_modify_opts, finish_opts, build_opts, check_counts,
}
use sipgate_sip_stream_bridg.Api.Calls.{
  modify_known, Api, error_json, Handled, write_call_json, live_session, subscribe, complete,
  start_document, run_document, modify_live, modify_found, modify_parsed, modify_call_handler,
  twiml_body, is_call_sid,
}

-- An error other than the 404 leaves the calls alone and no document to run.
abbrev pub Quiet : Api → Handled → Type 0
Quiet a h =
    (e : ApiError)
    → e ≢ not_found
    → h.reply ≡ error_json e
    → (h.api.manager ≡ a.manager) × (h.background ≡ none)

-- The re-fetch answers with the call or with the 404.
write_call_json-not_found :
    (sid : String) (a : Api) (e : ApiError) → write_call_json sid a ≡ error_json e → e ≡ not_found
unfolding write_call_json
write_call_json-not_found sid a e w = elim (Option-cases (get_by_call_sid sid a.manager)) [
  | inl h ↦ let w' = rw (write_call_json, h) at w in cc
  | inr (call, h) ↦ let w' = rw (write_call_json, h) at w in cc
]

start_document-Quiet :
    (others : CallManager → CallManager) (sid : String) (r : ℕ) (o : ModifyOpts)
    (d : Outcome Response) (a : Api)
    → Quiet a (start_document others sid r o d a)
unfolding start_document
start_document-Quiet others sid r o (ok doc) a e other w =
    absurd
      (other (write_call_json-not_found sid (start_document others sid r o (ok doc) a).api e w))
start_document-Quiet others sid r o (failed x) a e other w = (refl, refl)
start_document-Quiet others sid r o out_of_fuel a e other w = (refl, refl)

counted-inr :
    (p o : ModifyOpts) (c : Option ApiError)
    → counted p c ≡ inr o
    → o.status_callback ≡ p.status_callback
unfolding counted
counted-inr p o (some e) h = absurd (cc)
counted-inr p o none h =
    let same : p ≡ o = cc in ap (λ (x : ModifyOpts). x.status_callback) (sym same)

finish_opts-inr :
    (form : ModifyForm) (events : List String) (method : Option String) (o : ModifyOpts)
    → finish_opts form events method ≡ inr o
    → o.status_callback ≡ form.status_callback
unfolding finish_opts build_opts
finish_opts-inr form events none o h = absurd (cc)
finish_opts-inr form events (some method) o h =
    counted-inr (build_opts form events method) o (check_counts form) h

with_events-inr :
    (parse_url : String → Option Url) (form : ModifyForm) (events : Option (List String))
    (o : ModifyOpts)
    → with_events parse_url form events ≡ inr o
    → o.status_callback ≡ form.status_callback
unfolding with_events
with_events-inr parse_url form none o h = absurd (cc)
with_events-inr parse_url form (some events) o h = finish_opts-inr form events _ o h

parse_modify_opts-callback :
    (parse_url : String → Option Url) (form : ModifyForm) (o : ModifyOpts)
    → parse_modify_opts parse_url form ≡ inr o
    → o.status_callback ≡ form.status_callback
unfolding parse_modify_opts
parse_modify_opts-callback parse_url form o h = elim (Bool-cases form.well_formed) [
  | inl e ↦ with_events-inr parse_url form (flatten_events form.status_callback_event) o (rw e at h)
  | inr e ↦ absurd (let bad = rw e at h in cc)
]

Quiet-if :
    (a : Api) (b : Bool) (p q : Handled) → Quiet a p → Quiet a q → Quiet a (if b then p else q)
Quiet-if a true p q hp hq = hp
Quiet-if a false p q hp hq = hq

module _ (decode : Text → Tokens × Stop) (parse_url : String → Option Url) (send : Send)
    (others : CallManager → CallManager) (fails : ℕ → Option String) (now : ℕ) where
  run_document-Quiet :
      (sid : String) (r : ℕ) (o : ModifyOpts) (body : FetchError ⊎ Text) (a : Api)
      → Quiet a (run_document decode parse_url send others fails now sid r o body a)
  unfolding run_document
  run_document-Quiet sid r o (inl x) a e other w = (refl, refl)
  run_document-Quiet sid r o (inr body) a e other w =
      start_document-Quiet others sid r o (parse (length body) (decode body).0 (decode body).1) a e
        other w

  complete-Quiet :
      (sid : String) (live : Option ℕ) (a : Api) → Quiet a (complete others fails now sid live a)
  unfolding complete
  complete-Quiet sid none a e other w =
      absurd (other (write_call_json-not_found sid (complete others fails now sid none a).api e w))
  complete-Quiet sid (some r) a e other w =
      absurd
        (other (write_call_json-not_found sid (complete others fails now sid (some r) a).api e w))

  subscribe_none :
      (o : ModifyOpts) (live : Option ℕ) (a : Api)
      → str_eq o.status_callback "" ≡ true
      → subscribe o live a ≡ a
  unfolding subscribe
  subscribe_none o none a h = refl
  subscribe_none o (some r) a h = rw h

  modify_live-Quiet :
      (sid : String) (o : ModifyOpts) (live : Option ℕ) (a : Api)
      → Quiet a (modify_live decode parse_url send others fails now sid o live a)
  unfolding modify_live
  modify_live-Quiet sid o none a =
      Quiet-if a (str_eq o.status "completed") _ _ (complete-Quiet sid none a)
        (λ e other w. (refl, refl))
  modify_live-Quiet sid o (some r) a =
      Quiet-if a (str_eq o.status "completed") _ _ (complete-Quiet sid (some r) a)
        (run_document-Quiet sid r o (twiml_body send o) a)

  modify_found-Quiet :
      (sid : String) (o : ModifyOpts) (a : Api)
      → str_eq o.status_callback "" ≡ true
      → Quiet a (modify_found decode parse_url send others fails now sid o a)
  unfolding modify_found
  modify_found-Quiet sid o a h =
      rw (h, subscribe_none o (live_session sid a.manager) a h)
        (modify_live-Quiet sid o (live_session sid a.manager) a)

  modify_known-Quiet :
      (sid : String) (o : ModifyOpts) (call : Option BridgeCall) (a : Api)
      → str_eq o.status_callback "" ≡ true
      → Quiet a (modify_known decode parse_url send others fails now sid o call a)
  unfolding modify_known
  modify_known-Quiet sid o none a h e other w = (refl, refl)
  modify_known-Quiet sid o (some call) a h e other w = modify_found-Quiet sid o a h e other w

  modify_parsed-Quiet :
      (sid : String) (p : ApiError ⊎ ModifyOpts) (a : Api)
      → ((o : ModifyOpts) → p ≡ inr o → str_eq o.status_callback "" ≡ true)
      → Quiet a (modify_parsed decode parse_url send others fails now sid p a)
  unfolding modify_parsed
  modify_parsed-Quiet sid (inl x) a h e other w = (refl, refl)
  modify_parsed-Quiet sid (inr o) a h e other w =
      Quiet-if a (is_call_sid (codes sid)) _ _
        (modify_known-Quiet sid o (get_by_call_sid sid a.manager) a (h o refl))
        (λ e other w. (refl, refl)) e other w

  -- A request without StatusCallback that is answered with an error other than the 404 changes no call,
  -- registers none and leaves no document to run, whatever other goroutines do before the answer. The
  -- 404 may also stand for a call that was changed and has gone from the indices since.
  pub modify_call_handler-Quiet :
      (sid : String) (form : ModifyForm) (a : Api) (e : ApiError)
      → form.status_callback ≡ ""
      → e ≢ not_found
      → (modify_call_handler decode parse_url send others fails now sid form a).reply ≡ error_json e
      → ((modify_call_handler decode parse_url send others fails now sid form a).api.manager
          ≡ a.manager)
        × ((modify_call_handler decode parse_url send others fails now sid form a).background
            ≡ none)
  unfolding modify_call_handler
  modify_call_handler-Quiet sid form a e blank other w =
      modify_parsed-Quiet sid (parse_modify_opts parse_url form) a
        (λ o p.
          (str_eq_iff o.status_callback "").1
            (parse_modify_opts-callback parse_url form o p ∙ blank))
        e other w
