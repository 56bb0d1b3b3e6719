-- ===== src/Twiml/Parse/Tree.antt =====
-- What a well-nested document says, read on its tree: the meaning that Parse is compared with. No
-- function here sees a token.
pub mod Loops
pub mod Document
use sipgate_sip_stream_bridg.Prelude.{
  Bool, true, false, String, List, [], ◌∷◌, ◌++◌, Option, none, some, str_eq, if◌then◌else◌,
}
use sipgate_sip_stream_bridg.Twiml.Xml.{
  Attr, Outcome, ok, bind, Node, Nodes, element, text, misc, read_all,
}
use sipgate_sip_stream_bridg.Twiml.Verbs.{
  Stream, Connect, Number, Dial, Redirect, Verb, connect, dial, hangup, redirect, reject,
  unknown_verb, Response, no_stream, no_number, no_dial,
}
use sipgate_sip_stream_bridg.Twiml.Parse.{
  stream_attrs, parameter_attrs, add_parameter, number_attr, dial_attr, attrs_of, redirect_attrs,
  parse_reject,
}

unfoldable pub stream_node : Stream → Node → Outcome Stream
stream_node s (element name attrs kids) =
    ok (if str_eq name "Parameter" then add_parameter (parameter_attrs ([], []) attrs) s else s)
stream_node s (text t) = ok s
stream_node s misc = ok s

unfoldable pub read_stream : List Attr → Nodes → Outcome Stream
unfolding read_all stream_node
read_stream attrs kids = read_all stream_node (stream_attrs no_stream attrs) kids

-- Of several <Stream> children the last one counts; others say nothing.
unfoldable pub connect_node : Connect → Node → Outcome Connect
unfolding read_stream
connect_node c (element name attrs kids) =
    let with_stream = bind (read_stream attrs kids) λ s. ok (record { stream = some s }) in
    if str_eq name "Stream" then with_stream else ok c
connect_node c (text t) = ok c
connect_node c misc = ok c

unfoldable pub read_connect : Nodes → Outcome Connect
unfolding read_all connect_node
read_connect kids = read_all connect_node (record { stream = none }) kids

unfoldable pub number_node : Number → Node → Outcome Number
number_node n (element name attrs kids) = ok n
number_node n (text t) = ok (record n { text = n.text ++ t })
number_node n misc = ok n

unfoldable pub read_number : List Attr → Nodes → Outcome Number
unfolding attrs_of number_attr read_all number_node
read_number attrs kids =
    bind (attrs_of number_attr no_number attrs) λ n. read_all number_node n kids

unfoldable pub dial_node : Dial → Node → Outcome Dial
unfolding read_number
dial_node d (element name attrs kids) =
    let with_number = bind (read_number attrs kids) λ n. ok (record d { number = some n }) in
    if str_eq name "Number"
    then with_number
    else if str_eq name "Sip"
    then ok (record d { has_sip = true })
    else if str_eq name "Client"
    then ok (record d { has_client = true })
    else if str_eq name "Conference"
    then ok (record d { has_conference = true })
    else if str_eq name "Queue"
    then ok (record d { has_queue = true })
    else ok d
dial_node d (text t) = ok (record d { number_text = d.number_text ++ t })
dial_node d misc = ok d

unfoldable pub read_dial : List Attr → Nodes → Outcome Dial
unfolding attrs_of dial_attr read_all dial_node
read_dial attrs kids = bind (attrs_of dial_attr no_dial attrs) λ d. read_all dial_node d kids

unfoldable pub redirect_node : Redirect → Node → Outcome Redirect
redirect_node r (element name attrs kids) = ok r
redirect_node r (text t) = ok (record r { url = r.url ++ t })
redirect_node r misc = ok r

unfoldable pub read_redirect : List Attr → Nodes → Outcome Redirect
unfolding redirect_attrs read_all redirect_node
read_redirect attrs kids =
    read_all redirect_node (redirect_attrs (record { method = []; url = [] }) attrs) kids

unfoldable pub read_verb : String → List Attr → Nodes → Outcome Verb
unfolding read_connect read_dial read_redirect parse_reject
read_verb name attrs kids =
    let a_connect = bind (read_connect kids) λ c. ok (connect c) in
    let a_dial = bind (read_dial attrs kids) λ d. ok (dial d) in
    let a_redirect = bind (read_redirect attrs kids) λ r. ok (redirect r) in
    if str_eq name "Connect"
    then a_connect
    else if str_eq name "Dial"
    then a_dial
    else if str_eq name "Hangup"
    then ok hangup
    else if str_eq name "Redirect"
    then a_redirect
    else if str_eq name "Reject"
    then ok (reject (parse_reject attrs))
    else ok (unknown_verb name)

-- One verb for each child element, in the order of the document.
unfoldable pub response_node : Response → Node → Outcome Response
unfolding read_verb
response_node r (element name attrs kids) =
    bind (read_verb name attrs kids) λ v. ok (record { verbs = r.verbs ++ v ∷ [] })
response_node r (text t) = ok r
response_node r misc = ok r

unfoldable pub read_response : Nodes → Outcome Response
unfolding read_all response_node
read_response kids = read_all response_node (record { verbs = [] }) kids
