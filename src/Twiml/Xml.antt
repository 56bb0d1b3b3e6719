-- ===== src/Twiml/Xml.antt =====
-- What go/internal/twiml/parse.go uses of encoding/xml: an `xml.Decoder` is the list of the tokens it
-- still gives, `for { tok, err := dec.Token(); ... }` is `walk`, and a document is a tree of nodes. An
-- attribute and an element are known by their local names.
pub mod Loops
pub mod Skip
use sipgate_sip_stream_bridg.Prelude.{
  ℕ, zero, suc, ◌+◌, ◌-◌, ◌<◌, ◌≤◌, ◌≡◌, refl, ap, String, List, [], ◌∷◌, ◌++◌, arith, length,
  length-append,
}
use sipgate_sip_stream_bridg.Prelude.Text.{Text}

pub record Attr : Type 0 where
  pub name : String
  pub value : Text

-- xml.StartElement, xml.EndElement, xml.CharData; xml.Comment, xml.ProcInst and xml.Directive are
-- `other`.
pub data Token : Type 0 where
  start : String → List Attr → Token
  close : String → Token
  chars : Text → Token
  other : Token

abbrev pub Tokens : Type 0
Tokens = List Token

abbrev pub error_code_malformed : ℕ
error_code_malformed = 12_100

-- What the message of an error says; the decoder's own text stays in it.
pub data Message : Type 0 where
  empty_document not_a_response : Message
  unexpected_end : String → Message
  unknown_event : String → Text → Message
  decoder : Text → Message

-- twiml.Error
pub record TwimlError : Type 0 where
  pub code : ℕ
  pub message : Message

abbrev pub malformed : Message → TwimlError
malformed message = record { code = error_code_malformed; message = message }

-- `out_of_fuel` has no counterpart in the program.
pub data Outcome {ℓ} (A : Type ℓ) : Type ℓ where
  ok : A → Outcome A
  failed : TwimlError → Outcome A
  out_of_fuel : Outcome A

abbrev pub bind {ℓ κ} : {A : Type ℓ} {B : Type κ} → Outcome A → (A → Outcome B) → Outcome B
bind (ok a) f = f a
bind (failed e) f = failed e
bind out_of_fuel f = out_of_fuel

-- How a round of a loop ends: the next round, or a return.
pub data Turn {ℓ κ} (S : Type ℓ) (A : Type κ) : Type (ℓ ⊔ κ) where
  again : S → Turn S A
  done : A → Turn S A

abbrev pub Reader {ℓ} : Type ℓ → Type ℓ
Reader A = Tokens → Outcome (A × Tokens)

abbrev pub Body {ℓ κ} : Type ℓ → Type κ → Type (ℓ ⊔ κ)
Body S A = S → Token → Reader (Turn S A)

-- What a round leaves to do.
unfoldable pub next {ℓ κ} :
    {S : Type ℓ} {A : Type κ} → (S → Reader A) → Turn S A × Tokens → Outcome (A × Tokens)
next rest (again s, ts) = rest s ts
next rest (done a, ts) = ok (a, ts)

-- The loop over the tokens; where they end, the decoder's error ends it.
module _ {ℓ κ} {S : Type ℓ} {A : Type κ} (at_end : TwimlError) (body : Body S A) where
  unfoldable pub walk : ℕ → S → Reader A
  unfolding next
  walk zero s ts = out_of_fuel
  walk (suc f) s [] = failed at_end
  walk (suc f) s (t ∷ ts) = bind (body s t ts) (next (walk f))

  unfoldable pub loop : S → Reader A
  unfolding walk
  loop s ts = walk (suc (length ts)) s ts

-- A body that goes on with a state, and one that returns.
abbrev pub go_on {ℓ κ} : {S : Type ℓ} {A : Type κ} → S → Reader (Turn S A)
go_on s ts = ok (again s, ts)

abbrev pub return {ℓ κ} : {S : Type ℓ} {A : Type κ} → A → Reader (Turn S A)
return a ts = ok (done a, ts)

-- (*xml.Decoder).Skip
unfoldable pub skip_body : Body ℕ (Unit {0})
skip_body depth (start name attrs) = go_on (suc depth)
skip_body zero (close name) = return tt
skip_body (suc depth) (close name) = go_on depth
skip_body depth (chars text) = go_on depth
skip_body depth other = go_on depth

-- A well-nested document: an element, its attributes and its children.
mutual
  pub data Node : Type 0 where
    element : String → List Attr → Nodes → Node
    text : Text → Node
    misc : Node

  pub data Nodes : Type 0 where
    no_nodes : Nodes
    node : Node → Nodes → Nodes

unfoldable mutual
  pub tokens : Node → Tokens
  tokens (element name attrs kids) = start name attrs ∷ (tokens_of kids ++ close name ∷ [])
  tokens (text s) = chars s ∷ []
  tokens misc = other ∷ []

  pub tokens_of : Nodes → Tokens
  tokens_of no_nodes = []
  tokens_of (node n ns) = tokens n ++ tokens_of ns

unfoldable pub count : Nodes → ℕ
count no_nodes = 0
count (node n ns) = suc (count ns)

-- The reading of a list of children, one at a time.
module _ {ℓ} {S : Type ℓ} (read : S → Node → Outcome S) where
  unfoldable pub read_all : S → Nodes → Outcome S
  read_all s no_nodes = ok s
  read_all s (node n ns) = bind (read s n) λ s'. read_all s' ns

-- (*xml.Decoder).Skip: to the end of the element that the decoder stands in.
unfoldable pub skip : TwimlError → Reader (Unit {0})
unfolding loop
skip at_end = loop at_end skip_body 0
