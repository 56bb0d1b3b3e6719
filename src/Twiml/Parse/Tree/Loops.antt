-- ===== src/Twiml/Parse/Tree/Loops.antt =====
-- go/internal/twiml/parse.go: on the tokens of a well-nested document each loop reads what the tree
-- says.
use mathlib.Core.Path.{fun_ext}
use sipgate_sip_stream_bridg.Prelude.{
  ◌≡◌, refl, ap, ◌∙◌, true, String, List, [], ◌∷◌, ◌++◌, none, inl, inr, arith, str_eq, str_eq_iff,
  Bool-cases,
}
use sipgate_sip_stream_bridg.Twiml.Xml.{
  Attr, close, Tokens, TwimlError, Outcome, ok, failed, out_of_fuel, bind, Node, Nodes, element,
  text, misc, tokens_of,
}
use sipgate_sip_stream_bridg.Twiml.Xml.Loops.{ReadsNode, resume, loop-tokens_of}
use sipgate_sip_stream_bridg.Twiml.Xml.Skip.{skip-tokens_of}
use sipgate_sip_stream_bridg.Twiml.Verbs.{no_stream, no_number, no_dial}
use sipgate_sip_stream_bridg.Twiml.Parse.{
  stream_attrs, number_attr, dial_attr, attrs_of, redirect_attrs,
}
use sipgate_sip_stream_bridg.Twiml.Parse.Elements.{
  then_with, stream_body, parse_stream, connect_body, parse_connect, number_body, parse_number,
  dial_body, parse_dial, redirect_body, parse_redirect,
}
use sipgate_sip_stream_bridg.Twiml.Parse.Tree.{
  stream_node, read_stream, connect_node, read_connect, number_node, read_number, dial_node,
  read_dial, redirect_node, read_redirect,
}

-- A reading of the tree, with the tokens that are left.
abbrev pub leaving {ℓ} : {A : Type ℓ} → Tokens → Outcome A → Outcome (A × Tokens)
leaving rest o = bind o λ a. ok (a, rest)

pub then_with-leaving {ℓ κ λ'} :
    {S : Type ℓ} {A : Type κ} {C : Type λ'} (rest : Tokens) (o : Outcome C) (add : C → S)
    → then_with {A = A} (leaving rest o) add ≡ resume rest (bind o λ c. ok (add c))
unfolding resume
then_with-leaving rest (ok c) add = refl
then_with-leaving rest (failed e) add = refl
then_with-leaving rest out_of_fuel add = refl

leaving-bind {ℓ κ} :
    {A : Type ℓ} {B : Type κ} (rest : Tokens) (o : Outcome A) (k : A → Outcome B)
    → (bind o λ a. leaving rest (k a)) ≡ leaving rest (bind o k)
leaving-bind rest (ok a) k = refl
leaving-bind rest (failed e) k = refl
leaving-bind rest out_of_fuel k = refl

pub named : (s t : String) → str_eq s t ≡ true → s ≡ t
named s t = (str_eq_iff s t).0

module _ (cut : TwimlError) where
  stream_body-ReadsNode : (n : Node) → ReadsNode (stream_body cut) stream_node n
  unfolding ReadsNode stream_body stream_node resume
  stream_body-ReadsNode (element name attrs kids) =
      λ s rest. rw (skip-tokens_of cut kids name rest) (ground arith)
  stream_body-ReadsNode (text t) = λ s rest. refl
  stream_body-ReadsNode misc = λ s rest. refl

  pub parse_stream-tokens_of :
      (attrs : List Attr) (kids : Nodes) (rest : Tokens)
      → parse_stream cut attrs (tokens_of kids ++ close "Stream" ∷ rest)
        ≡ leaving rest (read_stream attrs kids)
  unfolding parse_stream read_stream stream_body
  parse_stream-tokens_of attrs kids rest =
      loop-tokens_of cut (stream_body cut) stream_node (λ s. s) "Stream" stream_body-ReadsNode
        (λ s r. refl) kids (stream_attrs no_stream attrs) rest

  connect_body-ReadsNode : (n : Node) → ReadsNode (connect_body cut) connect_node n
  unfolding ReadsNode connect_body connect_node resume
  connect_body-ReadsNode (element name attrs kids) = λ c rest.
      elim (Bool-cases (str_eq name "Stream")) [
        | inl e ↦
            rw (named name "Stream" e, parse_stream-tokens_of attrs kids rest)
              (then_with-leaving rest (read_stream attrs kids) _)
        | inr e ↦ rw (e, skip-tokens_of cut kids name rest)
      ]
  connect_body-ReadsNode (text t) = λ c rest. refl
  connect_body-ReadsNode misc = λ c rest. refl

  pub parse_connect-tokens_of :
      (kids : Nodes) (rest : Tokens)
      → parse_connect cut (tokens_of kids ++ close "Connect" ∷ rest)
        ≡ leaving rest (read_connect kids)
  unfolding parse_connect read_connect connect_body
  parse_connect-tokens_of kids rest =
      loop-tokens_of cut (connect_body cut) connect_node (λ c. c) "Connect" connect_body-ReadsNode
        (λ c r. refl) kids (record { stream = none }) rest

  number_body-ReadsNode : (n : Node) → ReadsNode (number_body cut) number_node n
  unfolding ReadsNode number_body number_node resume
  number_body-ReadsNode (element name attrs kids) = λ n rest. rw (skip-tokens_of cut kids name rest)
  number_body-ReadsNode (text t) = λ n rest. refl
  number_body-ReadsNode misc = λ n rest. refl

  pub parse_number-tokens_of :
      (attrs : List Attr) (kids : Nodes) (rest : Tokens)
      → parse_number cut attrs (tokens_of kids ++ close "Number" ∷ rest)
        ≡ leaving rest (read_number attrs kids)
  unfolding parse_number read_number number_body
  parse_number-tokens_of attrs kids rest =
      ap (bind (attrs_of number_attr no_number attrs)) (
        fun_ext λ n.
          loop-tokens_of cut (number_body cut) number_node (λ n. n) "Number" number_body-ReadsNode
            (λ n r. refl) kids n rest)
      ∙ leaving-bind rest (attrs_of number_attr no_number attrs) _

  dial_body-ReadsNode : (n : Node) → ReadsNode (dial_body cut) dial_node n
  unfolding ReadsNode dial_body dial_node resume
  dial_body-ReadsNode (element name attrs kids) = λ d rest.
      elim (Bool-cases (str_eq name "Number")) [
        | inl e ↦
            rw (named name "Number" e, parse_number-tokens_of attrs kids rest)
              (then_with-leaving rest (read_number attrs kids) _)
        | inr e ↦ rw (e, skip-tokens_of cut kids name rest) (ground arith)
      ]
  dial_body-ReadsNode (text t) = λ d rest. refl
  dial_body-ReadsNode misc = λ d rest. refl

  pub parse_dial-tokens_of :
      (attrs : List Attr) (kids : Nodes) (rest : Tokens)
      → parse_dial cut attrs (tokens_of kids ++ close "Dial" ∷ rest)
        ≡ leaving rest (read_dial attrs kids)
  unfolding parse_dial read_dial dial_body
  parse_dial-tokens_of attrs kids rest =
      ap (bind (attrs_of dial_attr no_dial attrs)) (
        fun_ext λ d.
          loop-tokens_of cut (dial_body cut) dial_node (λ d. d) "Dial" dial_body-ReadsNode
            (λ d r. refl) kids d rest)
      ∙ leaving-bind rest (attrs_of dial_attr no_dial attrs) _

  redirect_body-ReadsNode : (n : Node) → ReadsNode (redirect_body cut) redirect_node n
  unfolding ReadsNode redirect_body redirect_node resume
  redirect_body-ReadsNode (element name attrs kids) =
      λ r rest. rw (skip-tokens_of cut kids name rest)
  redirect_body-ReadsNode (text t) = λ r rest. refl
  redirect_body-ReadsNode misc = λ r rest. refl

  pub parse_redirect-tokens_of :
      (attrs : List Attr) (kids : Nodes) (rest : Tokens)
      → parse_redirect cut attrs (tokens_of kids ++ close "Redirect" ∷ rest)
        ≡ leaving rest (read_redirect attrs kids)
  unfolding parse_redirect read_redirect redirect_body
  parse_redirect-tokens_of attrs kids rest =
      loop-tokens_of cut (redirect_body cut) redirect_node (λ r. r) "Redirect"
        redirect_body-ReadsNode (λ r s. refl) kids
        (redirect_attrs (record { method = []; url = [] }) attrs) rest
