-- ===== src/Twiml/Parse/Elements.antt =====
-- go/internal/twiml/parse.go: the loops over the tokens of each element, up to Parse itself. `cut` is
-- the error for the decoder's own at the end of its tokens.
use sipgate_sip_stream_bridg.Prelude.{
  ℕ, true, ◌&&◌, String, List, [], ◌∷◌, ◌++◌, none, some, ◌==◌, str_eq, if◌then◌else◌,
}
use sipgate_sip_stream_bridg.Prelude.Text.{Text, codes}
use sipgate_sip_stream_bridg.Prelude.Int.{ℤ, pos, up, down, is_zero}
use sipgate_sip_stream_bridg.Twiml.Xml.{
  Attr, start, close, chars, other, Tokens, empty_document, not_a_response, unexpected_end, decoder,
  TwimlError, malformed, Outcome, ok, failed, out_of_fuel, bind, Turn, done, Reader, Body, loop,
  go_on, return, skip,
}
use sipgate_sip_stream_bridg.Twiml.Verbs.{
  Stream, Connect, Number, Dial, Redirect, Verb, connect, dial, hangup, redirect, reject,
  unknown_verb, Response, no_stream, no_number, no_dial,
}
use sipgate_sip_stream_bridg.Twiml.Parse.{
  stream_attrs, parameter_attrs, add_parameter, number_attr, dial_attr, attrs_of, redirect_attrs,
  parse_reject,
}

-- `f`, then go on with `s`.
abbrev pub then_on {ℓ κ} :
    {S : Type ℓ} {A : Type κ} → Outcome (Unit {0} × Tokens) → S → Outcome (Turn S A × Tokens)
then_on o s = bind o λ (_, rest). go_on s rest

-- A parsed child, then go on with the state that has it.
abbrev pub then_with {ℓ κ λ'} :
    {S : Type ℓ} {A : Type κ} {C : Type λ'}
    → Outcome (C × Tokens)
    → (C → S)
    → Outcome (Turn S A × Tokens)
then_with o add = bind o λ (c, rest). go_on (add c) rest

-- A parsed element, made into a verb.
abbrev pub into {ℓ κ} :
    {C : Type ℓ} {D : Type κ} → Outcome (C × Tokens) → (C → D) → Outcome (D × Tokens)
into o make = bind o λ (c, rest). ok (make c, rest)

-- skipToEnd: one round, with the depth.
unfoldable pub skip_to_end_body : String → Body ℤ (Unit {0})
unfolding up down is_zero
skip_to_end_body name depth (start other_name attrs) ts = go_on (up depth) ts
skip_to_end_body name depth (close end_name) ts =
    if is_zero depth && str_eq end_name name then return tt ts else go_on (down depth) ts
skip_to_end_body name depth (chars s) ts = go_on depth ts
skip_to_end_body name depth other ts = go_on depth ts

module _ (cut : TwimlError) where
  unfoldable pub skip_to_end : String → Reader (Unit {0})
  unfolding loop
  skip_to_end name = loop cut (skip_to_end_body name) (pos 0)

  unfoldable pub stream_body : Body Stream Stream
  unfolding skip add_parameter parameter_attrs
  stream_body s (start name attrs) ts =
      let with_parameter =
        then_on (skip cut ts) (add_parameter (parameter_attrs ([], []) attrs) s) in
      let without = then_on (skip cut ts) s in
      if str_eq name "Parameter" then with_parameter else without
  stream_body s (close name) ts = if str_eq name "Stream" then return s ts else go_on s ts
  stream_body s (chars text) ts = go_on s ts
  stream_body s other ts = go_on s ts

  unfoldable pub parse_stream : List Attr → Reader Stream
  unfolding loop stream_body stream_attrs
  parse_stream attrs = loop cut stream_body (stream_attrs no_stream attrs)

  unfoldable pub connect_body : Body Connect Connect
  unfolding skip parse_stream
  connect_body c (start name attrs) ts =
      let with_stream = then_with (parse_stream attrs ts) (λ s. record { stream = some s }) in
      let without = then_on (skip cut ts) c in if str_eq name "Stream" then with_stream else without
  connect_body c (close name) ts = if str_eq name "Connect" then return c ts else go_on c ts
  connect_body c (chars text) ts = go_on c ts
  connect_body c other ts = go_on c ts

  unfoldable pub parse_connect : Reader Connect
  unfolding loop connect_body
  parse_connect = loop cut connect_body (record { stream = none })

  unfoldable pub number_body : Body Number Number
  unfolding skip
  number_body n (start name attrs) ts = then_on (skip cut ts) n
  number_body n (close name) ts = if str_eq name "Number" then return n ts else go_on n ts
  number_body n (chars text) ts = go_on (record n { text = n.text ++ text }) ts
  number_body n other ts = go_on n ts

  unfoldable pub parse_number : List Attr → Reader Number
  unfolding loop number_body attrs_of number_attr
  parse_number attrs ts = bind (attrs_of number_attr no_number attrs) λ n. loop cut number_body n ts

  unfoldable pub dial_body : Body Dial Dial
  unfolding skip parse_number
  dial_body d (chars text) ts = go_on (record d { number_text = d.number_text ++ text }) ts
  dial_body d (start name attrs) ts =
      let with_number = then_with (parse_number attrs ts) (λ n. record d { number = some n }) in
      let with_sip = then_on (skip cut ts) (record d { has_sip = true }) in
      let with_client = then_on (skip cut ts) (record d { has_client = true }) in
      let with_conference = then_on (skip cut ts) (record d { has_conference = true }) in
      let with_queue = then_on (skip cut ts) (record d { has_queue = true }) in
      let without = then_on (skip cut ts) d in
      if str_eq name "Number"
      then with_number
      else if str_eq name "Sip"
      then with_sip
      else if str_eq name "Client"
      then with_client
      else if str_eq name "Conference"
      then with_conference
      else if str_eq name "Queue"
      then with_queue
      else without
  dial_body d (close name) ts = if str_eq name "Dial" then return d ts else go_on d ts
  dial_body d other ts = go_on d ts

  unfoldable pub parse_dial : List Attr → Reader Dial
  unfolding loop dial_body attrs_of dial_attr
  parse_dial attrs ts = bind (attrs_of dial_attr no_dial attrs) λ d. loop cut dial_body d ts

  unfoldable pub redirect_body : Body Redirect Redirect
  unfolding skip
  redirect_body r (chars text) ts = go_on (record r { url = r.url ++ text }) ts
  redirect_body r (start name attrs) ts = then_on (skip cut ts) r
  redirect_body r (close name) ts = if str_eq name "Redirect" then return r ts else go_on r ts
  redirect_body r other ts = go_on r ts

  unfoldable pub parse_redirect : List Attr → Reader Redirect
  unfolding loop redirect_body redirect_attrs
  parse_redirect attrs =
      loop cut redirect_body (redirect_attrs (record { method = []; url = [] }) attrs)

  -- The element of a child of <Response>, by its name.
  unfoldable pub parse_verb : String → List Attr → Reader Verb
  unfolding skip skip_to_end parse_connect parse_dial parse_redirect parse_reject
  parse_verb name attrs ts =
      let a_connect = into (parse_connect ts) connect in
      let a_dial = into (parse_dial attrs ts) dial in
      let a_hangup = into (skip_to_end name ts) (λ _. hangup) in
      let a_redirect = into (parse_redirect attrs ts) redirect in
      let a_reject = into (skip_to_end name ts) (λ _. reject (parse_reject attrs)) in
      let an_unknown = into (skip cut ts) (λ _. unknown_verb name) in
      if str_eq name "Connect"
      then a_connect
      else if str_eq name "Dial"
      then a_dial
      else if str_eq name "Hangup"
      then a_hangup
      else if str_eq name "Redirect"
      then a_redirect
      else if str_eq name "Reject"
      then a_reject
      else an_unknown

  unfoldable pub response_body : Body Response Response
  unfolding parse_verb
  response_body r (start name attrs) ts =
      then_with (parse_verb name attrs ts) (λ v. record { verbs = r.verbs ++ v ∷ [] })
  response_body r (close name) ts =
      if str_eq name "Response" then return r ts else failed (malformed (unexpected_end name))
  response_body r (chars text) ts = go_on r ts
  response_body r other ts = go_on r ts

  unfoldable pub parse_response_children : Reader Response
  unfolding loop response_body
  parse_response_children = loop cut response_body (record { verbs = [] })

-- How the decoder ends: at the end of its input, or with an error of its own.
pub data Stop : Type 0 where
  eof : Stop
  syntax_error : Text → Stop

-- err.Error() inside the document
unfoldable pub cut_of : Stop → TwimlError
cut_of eof = malformed (decoder (codes "EOF"))
cut_of (syntax_error e) = malformed (decoder e)

-- The error for the decoder's own before the root.
unfoldable pub no_root : Stop → TwimlError
no_root eof = malformed empty_document
no_root (syntax_error e) = malformed (decoder e)

-- Parse: one round of the search for the root.
unfoldable pub root_body : Stop → Body (Unit {0}) Response
unfolding parse_response_children cut_of
root_body stop s (start name attrs) ts =
    let root = into (parse_response_children (cut_of stop) ts) done in
    if str_eq name "Response" then root else failed (malformed not_a_response)
root_body stop s (close name) ts = go_on s ts
root_body stop s (chars text) ts = go_on s ts
root_body stop s other ts = go_on s ts

unfoldable pub response_of : Outcome (Response × Tokens) → Outcome Response
response_of (ok (r, rest)) = ok r
response_of (failed e) = failed e
response_of out_of_fuel = out_of_fuel

-- Parse of a body with so many bytes, whose decoder gives these tokens and then stops.
unfoldable pub parse : ℕ → Tokens → Stop → Outcome Response
unfolding root_body response_of loop no_root
parse size ts stop =
    let found = response_of (loop (no_root stop) (root_body stop) tt ts) in
    if size == 0 then failed (malformed empty_document) else found
