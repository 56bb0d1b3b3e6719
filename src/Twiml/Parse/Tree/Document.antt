-- ===== src/Twiml/Parse/Tree/Document.antt =====
-- go/internal/twiml/parse.go: Parse of a well-nested document gives what its tree says.
use mathlib.Core.List.{append_assoc}
use sipgate_sip_stream_bridg.Prelude.{
  ℕ, zero, suc, ◌+◌, ◌<◌, ◌≡◌, refl, ◌∙◌, String, List, [], ◌∷◌, ◌++◌, inl, inr, arith, length,
  length-append, str_eq, str_eq_refl, Bool-cases,
}
use sipgate_sip_stream_bridg.Prelude.Text.{Text}
use sipgate_sip_stream_bridg.Prelude.Int.{pos, up, down, is_zero}
use sipgate_sip_stream_bridg.Twiml.Xml.{
  Attr, close, chars, other, Tokens, TwimlError, Outcome, ok, failed, out_of_fuel, bind, done, next,
  walk, loop, Node, Nodes, element, text, misc, no_nodes, node, tokens, tokens_of,
}
use sipgate_sip_stream_bridg.Twiml.Xml.Loops.{ReadsNode, resume, loop-tokens_of}
use sipgate_sip_stream_bridg.Twiml.Xml.Skip.{skip-tokens_of, length-tokens_pos}
use sipgate_sip_stream_bridg.Twiml.Verbs.{Response}
use sipgate_sip_stream_bridg.Twiml.Parse.Elements.{
  into, skip_to_end_body, skip_to_end, parse_verb, response_body, parse_response_children, Stop,
  cut_of, no_root, root_body, response_of, parse,
}
use sipgate_sip_stream_bridg.Twiml.Parse.Tree.{
  read_connect, read_dial, read_redirect, read_verb, response_node, read_response,
}
use sipgate_sip_stream_bridg.Twiml.Parse.Tree.Loops.{
  leaving, then_with-leaving, named, parse_connect-tokens_of, parse_dial-tokens_of,
  parse_redirect-tokens_of,
}

module _ (cut : TwimlError) (name : String) where
  mutual
    unfolding walk tokens tokens_of skip_to_end_body up down is_zero next

    walk_skip_to_end-tokens :
        (n : Node) (g f depth : ℕ) (rest : Tokens)
        → g ≡ length (tokens n) + f
        → walk cut (skip_to_end_body name) g (pos depth) (tokens n ++ rest)
          ≡ walk cut (skip_to_end_body name) f (pos depth) rest
    walk_skip_to_end-tokens n zero f depth rest e = absurd (omega (arith, length-tokens_pos n))
    walk_skip_to_end-tokens (text s) (suc g) f depth rest e =
        let same : g ≡ f = omega arith in rw same
    walk_skip_to_end-tokens misc (suc g) f depth rest e = let same : g ≡ f = omega arith in rw same
    walk_skip_to_end-tokens (element name attrs kids) (suc g) f depth rest e = rw append_assoc (
        walk_skip_to_end-tokens_of kids g (suc f) (suc depth) (close name ∷ rest)
          (omega (arith, length-append (tokens_of kids) (close name ∷ []))))

    walk_skip_to_end-tokens_of :
        (ns : Nodes) (g f depth : ℕ) (rest : Tokens)
        → g ≡ length (tokens_of ns) + f
        → walk cut (skip_to_end_body name) g (pos depth) (tokens_of ns ++ rest)
          ≡ walk cut (skip_to_end_body name) f (pos depth) rest
    walk_skip_to_end-tokens_of no_nodes g f depth rest e = let same : g ≡ f = omega arith in rw same
    walk_skip_to_end-tokens_of (node n ns) g f depth rest e = rw append_assoc (
        walk_skip_to_end-tokens n g (length (tokens_of ns) + f) depth (tokens_of ns ++ rest)
          (omega (arith, length-append (tokens n) (tokens_of ns)))
        ∙ walk_skip_to_end-tokens_of ns (length (tokens_of ns) + f) f depth rest refl)

  skip_to_end-tokens_of :
      (kids : Nodes) (rest : Tokens)
      → skip_to_end cut name (tokens_of kids ++ close name ∷ rest) ≡ ok (tt, rest)
  unfolding skip_to_end loop walk skip_to_end_body next is_zero
  skip_to_end-tokens_of kids rest =
      walk_skip_to_end-tokens_of kids (suc (length (tokens_of kids ++ close name ∷ rest)))
        (suc (suc (length rest))) 0 (close name ∷ rest)
        (omega (arith, length-append (tokens_of kids) (close name ∷ rest)))
      ∙ rw (str_eq_refl name)

into-leaving {ℓ κ} :
    {A : Type ℓ} {B : Type κ} (rest : Tokens) (o : Outcome A) (make : A → B)
    → into (leaving rest o) make ≡ leaving rest (bind o λ a. ok (make a))
into-leaving rest (ok a) make = refl
into-leaving rest (failed e) make = refl
into-leaving rest out_of_fuel make = refl

parse_verb-tokens_of :
    (cut : TwimlError) (name : String) (attrs : List Attr) (kids : Nodes) (rest : Tokens)
    → parse_verb cut name attrs (tokens_of kids ++ close name ∷ rest)
      ≡ leaving rest (read_verb name attrs kids)
unfolding parse_verb read_verb
parse_verb-tokens_of cut name attrs kids rest = elim (Bool-cases (str_eq name "Connect")) [
  | inl e ↦
      rw (named name "Connect" e, parse_connect-tokens_of cut kids rest)
        (into-leaving rest (read_connect kids) _)
  | inr e ↦ elim (Bool-cases (str_eq name "Dial")) [
    | inl d ↦
        rw (named name "Dial" d, parse_dial-tokens_of cut attrs kids rest)
          (into-leaving rest (read_dial attrs kids) _)
    | inr d ↦ elim (Bool-cases (str_eq name "Redirect")) [
      | inl r ↦
          rw (named name "Redirect" r, parse_redirect-tokens_of cut attrs kids rest)
            (into-leaving rest (read_redirect attrs kids) _)
      | inr r ↦
          rw (e, d, r, skip_to_end-tokens_of cut name kids rest, skip-tokens_of cut kids name rest)
            (ground arith)
    ]
  ]
]

response_body-ReadsNode :
    (cut : TwimlError) (n : Node) → ReadsNode (response_body cut) response_node n
unfolding ReadsNode response_body response_node resume
response_body-ReadsNode cut (element name attrs kids) = λ r rest.
    rw (parse_verb-tokens_of cut name attrs kids rest)
      (then_with-leaving rest (read_verb name attrs kids) _)
response_body-ReadsNode cut (text t) = λ r rest. refl
response_body-ReadsNode cut misc = λ r rest. refl

parse_response_children-tokens_of :
    (cut : TwimlError) (kids : Nodes) (rest : Tokens)
    → parse_response_children cut (tokens_of kids ++ close "Response" ∷ rest)
      ≡ leaving rest (read_response kids)
unfolding parse_response_children read_response response_body
parse_response_children-tokens_of cut kids rest =
    loop-tokens_of cut (response_body cut) response_node (λ r. r) "Response"
      (response_body-ReadsNode cut) (λ r s. refl) kids (record { verbs = [] }) rest

-- Comments, processing instructions, directives and text: what may stand before the root.
pub data Prolog : Tokens → Type 0 where
  empty : Prolog []
  space : {s : Text} {ts : Tokens} → Prolog ts → Prolog (chars s ∷ ts)
  instruction : {ts : Tokens} → Prolog ts → Prolog (other ∷ ts)

root_found :
    (stop : Stop) (f : ℕ) (rest : Tokens) (o : Outcome Response)
    → response_of
        (bind (into (leaving rest o) done) (next (walk (no_root stop) (root_body stop) f)))
      ≡ o
unfolding response_of next
root_found stop f rest (ok r) = refl
root_found stop f rest (failed e) = refl
root_found stop f rest out_of_fuel = refl

walk_root-tokens :
    (attrs : List Attr) (kids : Nodes) (rest : Tokens) (stop : Stop) (prolog : Tokens)
    → Prolog prolog
    → response_of (
        loop
          (no_root stop)
          (root_body stop)
          tt
          (prolog ++ (tokens (element "Response" attrs kids) ++ rest)))
      ≡ read_response kids
unfolding loop walk root_body tokens next
walk_root-tokens attrs kids rest stop _ empty =
    rw (append_assoc, parse_response_children-tokens_of (cut_of stop) kids rest)
      (root_found stop (length (tokens (element "Response" attrs kids) ++ rest)) rest
        (read_response kids))
walk_root-tokens attrs kids rest stop _ (space p) = walk_root-tokens attrs kids rest stop _ p
walk_root-tokens attrs kids rest stop _ (instruction p) = walk_root-tokens attrs kids rest stop _ p

-- Parse of a well-nested document whose root is <Response>, after any prolog and before anything,
-- gives what its tree says: one verb for each child element, in the document's order.
pub parse-tokens :
    (size : ℕ) (prolog : Tokens) (attrs : List Attr) (kids : Nodes) (rest : Tokens) (stop : Stop)
    → 0 < size
    → Prolog prolog
    → parse size (prolog ++ (tokens (element "Response" attrs kids) ++ rest)) stop
      ≡ read_response kids
unfolding parse
parse-tokens size prolog attrs kids rest stop pos_size p =
    ground (arith, walk_root-tokens attrs kids rest stop prolog p)
