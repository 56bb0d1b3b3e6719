-- ===== src/Twiml/Parse.antt =====
-- go/internal/twiml/parse.go, Parse: one forward walk over the tokens. Each `parse_x` below is the
-- function parseX, its loop over the tokens by `x_body`, one round each.
pub mod Elements
pub mod Total
pub mod Tree
use sipgate_sip_stream_bridg.Prelude.{
  ℕ, zero, suc, ◌+◌, Bool, true, false, not, String, List, [], ◌∷◌, ◌++◌, Option, none, some, ◌⊎◌,
  inl, inr, ◌==◌, str_eq, if◌then◌else◌,
}
use sipgate_sip_stream_bridg.Prelude.Text.{Text, codes, same, is_empty}
use sipgate_sip_stream_bridg.Prelude.Int.{ℤ, pos, negsuc, atoi}
use sipgate_sip_stream_bridg.Twiml.Xml.{
  Attr, Token, start, close, chars, other, Tokens, Message, empty_document, not_a_response,
  unexpected_end, unknown_event, decoder, TwimlError, malformed, Outcome, ok, failed, bind, Turn,
  Reader, Body, loop, go_on, return, skip,
}
use sipgate_sip_stream_bridg.Twiml.Events.{parse_status_callback_events}
use sipgate_sip_stream_bridg.Twiml.Verbs.{
  Stream, Connect, Number, Dial, Redirect, Reject, Verb, connect, dial, hangup, redirect, reject,
  unknown_verb, Response, no_stream, no_number, no_dial, set_parameter,
}

abbrev is_true : Text → Bool
is_true v = same v (codes "true")

abbrev optional_int : Text → Option ℤ → Option ℤ
optional_int v old = elim (atoi v) [ none ↦ old | some n ↦ some n ]

unfoldable pub stream_attrs : Stream → List Attr → Stream
stream_attrs s [] = s
stream_attrs s (a ∷ rest) =
    stream_attrs
      (if str_eq a.name "url"
        then record s { url = a.value }
        else if str_eq a.name "name"
        then record s { name = a.value }
        else if str_eq a.name "track"
        then record s { track = a.value }
        else s)
      rest

-- The attributes of <Parameter>: its name and its value.
unfoldable pub parameter_attrs : Text × Text → List Attr → Text × Text
parameter_attrs p [] = p
parameter_attrs (name, value) (a ∷ rest) =
    parameter_attrs
      (if str_eq a.name "name"
        then (a.value, value)
        else if str_eq a.name "value"
        then (name, a.value)
        else (name, value))
      rest

unfoldable pub add_parameter : Text × Text → Stream → Stream
unfolding is_empty
add_parameter (name, value) s =
    if is_empty name then s else record s { parameters = set_parameter name value s.parameters }

-- The events of an attribute of the element `name`, or its error.
unfoldable pub events_of : String → Text → Outcome (List Text)
unfolding parse_status_callback_events
events_of name v = elim (parse_status_callback_events v) [
  | inl unknown ↦ failed (malformed (unknown_event name unknown))
  | inr events ↦ ok events
]

unfoldable pub number_attr : Number → Attr → Outcome Number
unfolding events_of
number_attr n a =
    let with_events =
      bind (events_of "Number" a.value) λ es. ok (record n { status_callback_events = es }) in
    if str_eq a.name "statusCallback"
    then ok (record n { status_callback = a.value })
    else if str_eq a.name "statusCallbackMethod"
    then ok (record n { status_callback_method = a.value })
    else if str_eq a.name "statusCallbackEvent"
    then with_events
    else ok n

unfoldable pub dial_attr : Dial → Attr → Outcome Dial
unfolding events_of
dial_attr d a =
    let with_events =
      bind (events_of "Dial" a.value) λ es. ok (record d { status_callback_events = es }) in
    if str_eq a.name "callerId"
    then ok (record d { caller_id = a.value })
    else if str_eq a.name "timeout"
    then ok (record d { timeout = optional_int a.value d.timeout })
    else if str_eq a.name "timeLimit"
    then ok (record d { time_limit = optional_int a.value d.time_limit })
    else if str_eq a.name "hangupOnStar"
    then ok (record d { hangup_on_star = is_true a.value })
    else if str_eq a.name "action"
    then ok (record d { action = a.value })
    else if str_eq a.name "method"
    then ok (record d { method = a.value })
    else if str_eq a.name "answerOnBridge"
    then ok (record d { answer_on_bridge = some (is_true a.value) })
    else if str_eq a.name "statusCallback"
    then ok (record d { status_callback = a.value })
    else if str_eq a.name "statusCallbackMethod"
    then ok (record d { status_callback_method = a.value })
    else if str_eq a.name "statusCallbackEvent"
    then with_events
    else ok d

-- A loop over attributes whose rounds may return an error.
unfoldable pub attrs_of {ℓ} : {S : Type ℓ} → (S → Attr → Outcome S) → S → List Attr → Outcome S
attrs_of read s [] = ok s
attrs_of read s (a ∷ rest) = bind (read s a) λ s'. attrs_of read s' rest

unfoldable pub redirect_attrs : Redirect → List Attr → Redirect
redirect_attrs r [] = r
redirect_attrs r (a ∷ rest) =
    redirect_attrs (if str_eq a.name "method" then record r { method = a.value } else r) rest

unfoldable pub reject_attrs : Reject → List Attr → Reject
reject_attrs r [] = r
reject_attrs r (a ∷ rest) =
    reject_attrs (if str_eq a.name "reason" then record r { reason = a.value } else r) rest

unfoldable pub parse_reject : List Attr → Reject
unfolding reject_attrs
parse_reject attrs = reject_attrs (record { reason = [] }) attrs
