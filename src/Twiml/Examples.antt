-- ===== src/Twiml/Examples.antt =====
-- Tests of go/internal/twiml.
use sipgate_sip_stream_bridg.Prelude.{◌≡◌, refl, true, some, [], ◌∷◌, ◌++◌, inr, arith}
use sipgate_sip_stream_bridg.Prelude.Text.{codes, is_empty}
use sipgate_sip_stream_bridg.Prelude.Int.{pos, is_negative}
use sipgate_sip_stream_bridg.Twiml.Xml.{
  start, close, other, Nodes, element, text, no_nodes, node, tokens,
}
use sipgate_sip_stream_bridg.Twiml.Verbs.{Dial, no_dial}
use sipgate_sip_stream_bridg.Twiml.Events.{parse_status_callback_events}
use sipgate_sip_stream_bridg.Twiml.Events.Listed.{
  ringing, no_answer, written, parse_status_callback_events-written,
}
use sipgate_sip_stream_bridg.Twiml.Parse.Elements.{eof, parse}
use sipgate_sip_stream_bridg.Twiml.Parse.Total.{Coded, parse-Coded}
use sipgate_sip_stream_bridg.Twiml.Parse.Tree.{read_response}
use sipgate_sip_stream_bridg.Twiml.Parse.Tree.Document.{empty, instruction, parse-tokens}
use sipgate_sip_stream_bridg.Twiml.Dispatch.{dial_opts}

-- <Say>hi</Say><Dial timeout="45" callerId="+49"><Number>+4930</Number></Dial><Hangup/>
abbrev dialled : Nodes
dialled = node (element "Say" [] (node (text (codes "hi")) no_nodes)) (
    node
      (element "Dial"
        (record { name = "timeout"; value = codes "45" }
          ∷ record { name = "callerId"; value = codes "+49" }
          ∷ [])
        (node (element "Number" [] (node (text (codes "+4930")) no_nodes)) no_nodes))
      (node (element "Hangup" [] no_nodes) no_nodes))

parse-tokens_example :
    parse 120 ((other ∷ []) ++ (tokens (element "Response" [] dialled) ++ (other ∷ []))) eof
    ≡ read_response dialled
parse-tokens_example =
    parse-tokens 120 (other ∷ []) [] dialled (other ∷ []) eof (omega arith) (instruction empty)

-- An end without a start.
parse-Coded_example : Coded (parse 9 (start "Response" [] ∷ close "Dial" ∷ []) eof)
parse-Coded_example = parse-Coded 9 (start "Response" [] ∷ close "Dial" ∷ []) eof

-- ",ringing, no-answer"
parse_status_callback_events-written_example :
    parse_status_callback_events
      (codes "," ++ written ((ringing, codes ", ") ∷ []) (some no_answer))
    ≡ inr (codes "ringing" ∷ codes "no-answer" ∷ [])
unfolding is_empty
parse_status_callback_events-written_example =
    parse_status_callback_events-written (codes ",") ((ringing, codes ", ") ∷ []) (some no_answer)
      refl refl

-- One second more than the bound makes the ring timeout negative.
abbrev long_dial : Dial
long_dial = record no_dial { timeout = some (pos 9_223_372_037) }

negative_timeout : is_negative (dial_opts long_dial).timeout ≡ true
unfolding dial_opts is_negative
negative_timeout = refl
