-- ===== src/Twiml/Xml/Loops.antt =====
-- The loops over the decoder's tokens: that they end, and what they make of a well-nested document.
use mathlib.Core.List.{append_assoc}
use sipgate_sip_stream_bridg.Prelude.{
  ℕ, zero, suc, ◌<◌, ◌≤◌, ◌≡◌, refl, Bool, true, false, if◌then◌else◌, String, [], ◌∷◌, ◌++◌, arith,
  length, length-append,
}
use sipgate_sip_stream_bridg.Twiml.Xml.{
  Token, start, close, chars, other, Tokens, TwimlError, Outcome, ok, failed, out_of_fuel, bind,
  Turn, again, done, Body, next, walk, loop, go_on, return, Node, Nodes, element, text, misc,
  no_nodes, node, tokens, tokens_of, count, read_all,
}

-- A reading returned: its value with at most `n` tokens left, or an error with code 12100.
pub data Settled {ℓ} {A : Type ℓ} (n : ℕ) : Outcome (A × Tokens) → Type ℓ where
  returned : {a : A} {rest : Tokens} → length rest ≤ n → Settled n (ok (a, rest))
  rejected : {e : TwimlError} → e.code ≡ 12_100 → Settled n (failed e)

module _ {ℓ} {A : Type ℓ} where
  -- A round that takes no further token.
  pub Settled-ok : (a : A) (ts : Tokens) → Settled (length ts) (ok (a, ts))
  Settled-ok a ts = returned (omega arith)

  pub Settled-le : (n m : ℕ) (r : Outcome (A × Tokens)) → n ≤ m → Settled n r → Settled m r
  Settled-le n m r le (returned h) = returned (omega arith)
  Settled-le n m r le (rejected h) = rejected h

  pub Settled-if :
      (n : ℕ) (b : Bool) (x y : Outcome (A × Tokens))
      → Settled n x
      → Settled n y
      → Settled n (if b then x else y)
  Settled-if n true x y hx hy = hx
  Settled-if n false x y hx hy = hy

module _ {ℓ κ} {A : Type ℓ} {B : Type κ} where
  pub Settled-bind :
      (n m : ℕ) (r : Outcome (A × Tokens)) (k : A × Tokens → Outcome (B × Tokens))
      → Settled n r
      → ((a : A) (rest : Tokens) → length rest ≤ n → Settled m (k (a, rest)))
      → Settled m (bind r k)
  Settled-bind n m _ k (returned h) hk = hk _ _ h
  Settled-bind n m _ k (rejected h) hk = rejected h

module _ {ℓ κ} {S : Type ℓ} {A : Type κ} (at_end : TwimlError) (body : Body S A) where
  -- A loop whose rounds return and take no token back returns.
  pub walk-Settled :
      at_end.code ≡ 12_100
      → ((s : S) (t : Token) (ts : Tokens) → Settled (length ts) (body s t ts))
      → (f : ℕ) (s : S) (ts : Tokens) → length ts < f
      → Settled (length ts) (walk at_end body f s ts)
  unfolding walk next
  walk-Settled e settles zero s ts h = absurd (omega arith)
  walk-Settled e settles (suc f) s [] h = rejected e
  walk-Settled e settles (suc f) s (t ∷ ts) h =
      Settled-bind (length ts) _ (body s t ts) (next (walk at_end body f)) (settles s t ts)
        λ v rest le.
          elim v as (λ v'. Settled (suc (length ts)) (next (walk at_end body f) (v', rest))) [
            | again s' ↦
                Settled-le (length rest) _ _ (omega arith)
                  (walk-Settled e settles f s' rest (omega arith))
            | done a ↦ returned (omega arith)
          ]

  pub loop-Settled :
      at_end.code ≡ 12_100
      → ((s : S) (t : Token) (ts : Tokens) → Settled (length ts) (body s t ts))
      → (s : S) (ts : Tokens) → Settled (length ts) (loop at_end body s ts)
  unfolding loop
  loop-Settled e settles s ts = walk-Settled e settles (suc (length ts)) s ts (omega arith)

pub count-le : (ns : Nodes) → count ns ≤ length (tokens_of ns)
unfolding count tokens_of tokens
count-le no_nodes = omega arith
count-le (node (element name attrs kids) ns) =
    omega (arith, count-le ns, length-append (tokens (element name attrs kids)) (tokens_of ns))
count-le (node (text s) ns) = omega (arith, count-le ns)
count-le (node misc ns) = omega (arith, count-le ns)

-- What a round makes of a node: the reading of the node, with the tokens after it left.
unfoldable pub resume {ℓ κ} :
    {S : Type ℓ} {A : Type κ} → Tokens → Outcome S → Outcome (Turn S A × Tokens)
resume rest (ok s) = go_on s rest
resume rest (failed e) = failed e
resume rest out_of_fuel = out_of_fuel

-- One round of `body` reads one node as `read` does.
unfoldable pub ReadsNode {ℓ κ} :
    {S : Type ℓ} {A : Type κ} → Body S A → (S → Node → Outcome S) → Node → Type (ℓ ⊔ κ)
ReadsNode body read (element name attrs kids) =
    (s : _) (rest : Tokens)
    → body s (start name attrs) (tokens_of kids ++ close name ∷ rest)
      ≡ resume rest (read s (element name attrs kids))
ReadsNode body read (text t) =
    (s : _) (rest : Tokens) → body s (chars t) rest ≡ resume rest (read s (text t))
ReadsNode body read misc = (s : _) (rest : Tokens) → body s other rest ≡ resume rest (read s misc)

module _ {ℓ κ} {S : Type ℓ} {A : Type κ} (at_end : TwimlError) (body : Body S A)
    (read : S → Node → Outcome S) (finish : S → A) (name : String)
    (reads : (n : Node) → ReadsNode body read n)
    (ends : (s : S) (rest : Tokens) → body s (close name) rest ≡ return (finish s) rest) where
  resume-next :
      (ns : Nodes) (f : ℕ) (ts rest : Tokens) (o : Outcome S)
      → ((s : S) → walk at_end body f s ts ≡ bind (read_all read s ns) (λ s'. ok (finish s', rest)))
      → bind (resume ts o) (next (walk at_end body f))
        ≡ bind (bind o (λ s. read_all read s ns)) (λ s'. ok (finish s', rest))
  unfolding resume next
  resume-next ns f ts rest (ok s) h = h s
  resume-next ns f ts rest (failed e) h = refl
  resume-next ns f ts rest out_of_fuel h = refl

  pub walk-tokens_of :
      (ns : Nodes) (f : ℕ) (s : S) (rest : Tokens)
      → count ns < f
      → walk at_end body f s (tokens_of ns ++ close name ∷ rest)
        ≡ bind (read_all read s ns) (λ s'. ok (finish s', rest))
  unfolding walk tokens_of tokens read_all count next ReadsNode
  walk-tokens_of ns zero s rest h = absurd (omega arith)
  walk-tokens_of no_nodes (suc f) s rest h = rw (ends s rest)
  walk-tokens_of (node (text t) ns) (suc f) s rest h =
      rw (reads (text t) s _)
        (resume-next ns f _ _ _ λ s'. walk-tokens_of ns f s' rest (omega arith))
  walk-tokens_of (node misc ns) (suc f) s rest h =
      rw (reads misc s _) (resume-next ns f _ _ _ λ s'. walk-tokens_of ns f s' rest (omega arith))
  walk-tokens_of (node (element name' attrs kids) ns) (suc f) s rest h =
      rw (append_assoc, append_assoc, reads (element name' attrs kids) s _)
        (resume-next ns f _ _ _ λ s'. walk-tokens_of ns f s' rest (omega arith))

  pub loop-tokens_of :
      (ns : Nodes) (s : S) (rest : Tokens)
      → loop at_end body s (tokens_of ns ++ close name ∷ rest)
        ≡ bind (read_all read s ns) (λ s'. ok (finish s', rest))
  unfolding loop
  loop-tokens_of ns s rest =
      walk-tokens_of ns (suc (length (tokens_of ns ++ close name ∷ rest))) s rest
        (omega (arith, count-le ns, length-append (tokens_of ns) (close name ∷ rest)))
