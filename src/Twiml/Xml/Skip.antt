-- ===== src/Twiml/Xml/Skip.antt =====
-- (*xml.Decoder).Skip: it ends, and it takes exactly the rest of the element it stands in.
use mathlib.Core.List.{append_assoc}
use sipgate_sip_stream_bridg.Prelude.{
  ℕ, zero, suc, ◌+◌, ◌<◌, ◌≡◌, refl, ◌∙◌, String, [], ◌∷◌, ◌++◌, arith, length, length-append,
}
use sipgate_sip_stream_bridg.Twiml.Xml.{
  Token, start, close, chars, other, Tokens, TwimlError, ok, next, walk, loop, skip_body, skip,
  Node, Nodes, element, text, misc, no_nodes, node, tokens, tokens_of,
}
use sipgate_sip_stream_bridg.Twiml.Xml.Loops.{Settled, Settled-ok, loop-Settled}

skip_body-Settled :
    (depth : ℕ) (t : Token) (ts : Tokens) → Settled (length ts) (skip_body depth t ts)
unfolding skip_body
skip_body-Settled depth (start name attrs) ts = Settled-ok _ ts
skip_body-Settled zero (close name) ts = Settled-ok _ ts
skip_body-Settled (suc depth) (close name) ts = Settled-ok _ ts
skip_body-Settled depth (chars s) ts = Settled-ok _ ts
skip_body-Settled depth other ts = Settled-ok _ ts

pub skip-Settled :
    (at_end : TwimlError)
    → at_end.code ≡ 12_100
    → (ts : Tokens) → Settled (length ts) (skip at_end ts)
unfolding skip
skip-Settled at_end e ts = loop-Settled at_end skip_body e skip_body-Settled 0 ts

pub length-tokens_pos : (n : Node) → 0 < length (tokens n)
unfolding tokens
length-tokens_pos (element name attrs kids) = omega arith
length-tokens_pos (text s) = omega arith
length-tokens_pos misc = omega arith

module _ (at_end : TwimlError) where
  mutual
    unfolding walk tokens tokens_of skip_body next

    walk_skip-tokens :
        (n : Node) (g f depth : ℕ) (rest : Tokens)
        → g ≡ length (tokens n) + f
        → walk at_end skip_body g depth (tokens n ++ rest) ≡ walk at_end skip_body f depth rest
    walk_skip-tokens n zero f depth rest e = absurd (omega (arith, length-tokens_pos n))
    walk_skip-tokens (text s) (suc g) f depth rest e = let same : g ≡ f = omega arith in rw same
    walk_skip-tokens misc (suc g) f depth rest e = let same : g ≡ f = omega arith in rw same
    walk_skip-tokens (element name attrs kids) (suc g) f depth rest e = rw append_assoc (
        walk_skip-tokens_of kids g (suc f) (suc depth) (close name ∷ rest)
          (omega (arith, length-append (tokens_of kids) (close name ∷ []))))

    walk_skip-tokens_of :
        (ns : Nodes) (g f depth : ℕ) (rest : Tokens)
        → g ≡ length (tokens_of ns) + f
        → walk at_end skip_body g depth (tokens_of ns ++ rest) ≡ walk at_end skip_body f depth rest
    walk_skip-tokens_of no_nodes g f depth rest e = let same : g ≡ f = omega arith in rw same
    walk_skip-tokens_of (node n ns) g f depth rest e = rw append_assoc (
        walk_skip-tokens n g (length (tokens_of ns) + f) depth (tokens_of ns ++ rest)
          (omega (arith, length-append (tokens n) (tokens_of ns)))
        ∙ walk_skip-tokens_of ns (length (tokens_of ns) + f) f depth rest refl)

  -- Inside an element, Skip leaves what follows the element's end.
  pub skip-tokens_of :
      (kids : Nodes) (name : String) (rest : Tokens)
      → skip at_end (tokens_of kids ++ close name ∷ rest) ≡ ok (tt, rest)
  unfolding skip loop walk skip_body next
  skip-tokens_of kids name rest =
      walk_skip-tokens_of kids (suc (length (tokens_of kids ++ close name ∷ rest)))
        (suc (suc (length rest))) 0 (close name ∷ rest)
        (omega (arith, length-append (tokens_of kids) (close name ∷ rest)))
