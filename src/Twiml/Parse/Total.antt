-- ===== src/Twiml/Parse/Total.antt =====
-- go/internal/twiml/parse.go: Parse returns on every input, and every error has the code 12100.
use sipgate_sip_stream_bridg.Prelude.{
  ℕ, ◌≡◌, refl, Bool, true, false, String, List, [], ◌∷◌, inl, inr, length, if◌then◌else◌, ◌==◌,
}
use sipgate_sip_stream_bridg.Prelude.Text.{Text}
use sipgate_sip_stream_bridg.Prelude.Int.{ℤ, pos}
use sipgate_sip_stream_bridg.Twiml.Xml.{
  Attr, Token, malformed, unknown_event, start, close, chars, other, Tokens, TwimlError, Outcome,
  ok, failed, bind, Turn, skip,
}
use sipgate_sip_stream_bridg.Twiml.Xml.Loops.{
  Settled, Settled-ok, Settled-if, Settled-bind, returned, rejected, loop-Settled,
}
use sipgate_sip_stream_bridg.Twiml.Xml.Skip.{skip-Settled}
use sipgate_sip_stream_bridg.Twiml.Events.{parse_status_callback_events}
use sipgate_sip_stream_bridg.Twiml.Verbs.{Stream, Connect, Number, Dial, Redirect, Response}
use sipgate_sip_stream_bridg.Twiml.Parse.{number_attr, dial_attr, attrs_of, events_of}
use sipgate_sip_stream_bridg.Twiml.Parse.Elements.{
  into, then_on, then_with, skip_to_end_body, skip_to_end, stream_body, parse_stream, connect_body,
  parse_connect, number_body, parse_number, dial_body, parse_dial, redirect_body, parse_redirect,
  parse_verb, response_body, parse_response_children, Stop, eof, syntax_error, cut_of, no_root,
  root_body, response_of, parse,
}

-- A value, or an error with the code 12100.
pub data Coded {ℓ} {A : Type ℓ} : Outcome A → Type ℓ where
  coded_ok : {a : A} → Coded (ok a)
  coded_failed : {e : TwimlError} → e.code ≡ 12_100 → Coded (failed e)

module _ {ℓ} {A : Type ℓ} where
  Coded-if : (b : Bool) {x y : Outcome A} → Coded x → Coded y → Coded (if b then x else y)
  Coded-if true hx hy = hx
  Coded-if false hx hy = hy

  Coded-then :
      (o : Outcome A) (k : A → Outcome A) → Coded o → ((a : A) → Coded (k a)) → Coded (bind o k)
  Coded-then _ k coded_ok hk = hk _
  Coded-then _ k (coded_failed h) hk = coded_failed h

  attrs_of-Coded :
      (read : A → Attr → Outcome A)
      → ((s : A) (a : Attr) → Coded (read s a))
      → (s : A) (attrs : List Attr) → Coded (attrs_of read s attrs)
  unfolding attrs_of
  attrs_of-Coded read coded s [] = coded_ok
  attrs_of-Coded read coded s (a ∷ rest) =
      Coded-then (read s a) _ (coded s a) λ s'. attrs_of-Coded read coded s' rest

module _ {ℓ κ} {A : Type ℓ} {B : Type κ} where
  Coded-bind :
      (n : ℕ) (r : Outcome A) (k : A → Outcome (B × Tokens))
      → Coded r
      → ((a : A) → Settled n (k a))
      → Settled n (bind r k)
  Coded-bind n _ k coded_ok hk = hk _
  Coded-bind n _ k (coded_failed h) hk = rejected h

  Coded-map : (r : Outcome A) (f : A → B) → Coded r → Coded (bind r λ a. ok (f a))
  Coded-map _ f coded_ok = coded_ok
  Coded-map _ f (coded_failed h) = coded_failed h

  Settled-map : (n : ℕ) (r : Outcome (A × Tokens)) (f : A → B) → Settled n r → Settled n (into r f)
  Settled-map n r f h = Settled-bind n n r _ h λ a rest le. returned le

events_of-Coded : (name : String) (v : Text) → Coded (events_of name v)
unfolding events_of
events_of-Coded name v =
    elim (parse_status_callback_events v)
      as (λ r. Coded (elim r [
        | inl unknown ↦ failed (malformed (unknown_event name unknown))
        | inr events ↦ ok events
      ])) [ inl unknown ↦ coded_failed refl | inr events ↦ coded_ok ]

number_attr-Coded : (n : Number) (a : Attr) → Coded (number_attr n a)
unfolding number_attr
number_attr-Coded n a = search (Coded-if, Coded-map, events_of-Coded, coded_ok) depth 7

dial_attr-Coded : (d : Dial) (a : Attr) → Coded (dial_attr d a)
unfolding dial_attr
dial_attr-Coded d a = search (Coded-if, Coded-map, events_of-Coded, coded_ok) depth 14

then_on-Settled {ℓ κ} :
    {S : Type ℓ} {A : Type κ} (n : ℕ) (o : Outcome (Unit {0} × Tokens)) (s : S)
    → Settled n o
    → Settled {A = Turn S A} n (then_on o s)
then_on-Settled n o s h = Settled-bind n n o _ h λ _ rest le. returned le

then_with-Settled {ℓ κ λ'} :
    {S : Type ℓ} {A : Type κ} {C : Type λ'} (n : ℕ) (o : Outcome (C × Tokens)) (add : C → S)
    → Settled n o
    → Settled {A = Turn S A} n (then_with o add)
then_with-Settled n o add h = Settled-bind n n o _ h λ c rest le. returned le

skip_to_end_body-Settled :
    (name : String) (depth : ℤ) (t : Token) (ts : Tokens)
    → Settled (length ts) (skip_to_end_body name depth t ts)
unfolding skip_to_end_body
skip_to_end_body-Settled name depth (start n attrs) ts = Settled-ok _ ts
skip_to_end_body-Settled name depth (close n) ts = search (Settled-if, Settled-ok)
skip_to_end_body-Settled name depth (chars s) ts = Settled-ok _ ts
skip_to_end_body-Settled name depth other ts = Settled-ok _ ts

ruleset rounds = (Settled-if, Settled-ok, then_on-Settled, then_with-Settled)

module _ (cut : TwimlError) (coded : cut.code ≡ 12_100) where
  skip_to_end-Settled :
      (name : String) (ts : Tokens) → Settled (length ts) (skip_to_end cut name ts)
  unfolding skip_to_end
  skip_to_end-Settled name ts =
      loop-Settled cut (skip_to_end_body name) coded (skip_to_end_body-Settled name) (pos 0) ts

  skipped : (ts : Tokens) → Settled (length ts) (skip cut ts)
  skipped ts = skip-Settled cut coded ts

  stream_body-Settled :
      (s : Stream) (t : Token) (ts : Tokens) → Settled (length ts) (stream_body cut s t ts)
  unfolding stream_body
  stream_body-Settled s (start name attrs) ts = search (rounds, skipped)
  stream_body-Settled s (close name) ts = search rounds
  stream_body-Settled s (chars text) ts = search rounds
  stream_body-Settled s other ts = search rounds

  parse_stream-Settled :
      (attrs : List Attr) (ts : Tokens) → Settled (length ts) (parse_stream cut attrs ts)
  unfolding parse_stream
  parse_stream-Settled attrs ts = loop-Settled cut (stream_body cut) coded stream_body-Settled _ ts

  connect_body-Settled :
      (c : Connect) (t : Token) (ts : Tokens) → Settled (length ts) (connect_body cut c t ts)
  unfolding connect_body
  connect_body-Settled c (start name attrs) ts = search (rounds, skipped, parse_stream-Settled)
  connect_body-Settled c (close name) ts = search rounds
  connect_body-Settled c (chars text) ts = search rounds
  connect_body-Settled c other ts = search rounds

  parse_connect-Settled : (ts : Tokens) → Settled (length ts) (parse_connect cut ts)
  unfolding parse_connect
  parse_connect-Settled ts = loop-Settled cut (connect_body cut) coded connect_body-Settled _ ts

  number_body-Settled :
      (n : Number) (t : Token) (ts : Tokens) → Settled (length ts) (number_body cut n t ts)
  unfolding number_body
  number_body-Settled n (start name attrs) ts = search (rounds, skipped)
  number_body-Settled n (close name) ts = search rounds
  number_body-Settled n (chars text) ts = search rounds
  number_body-Settled n other ts = search rounds

  parse_number-Settled :
      (attrs : List Attr) (ts : Tokens) → Settled (length ts) (parse_number cut attrs ts)
  unfolding parse_number
  parse_number-Settled attrs ts =
      Coded-bind _ _ _ (attrs_of-Coded number_attr number_attr-Coded _ attrs)
        λ n. loop-Settled cut (number_body cut) coded number_body-Settled n ts

  dial_body-Settled :
      (d : Dial) (t : Token) (ts : Tokens) → Settled (length ts) (dial_body cut d t ts)
  unfolding dial_body
  dial_body-Settled d (start name attrs) ts = search (rounds, skipped, parse_number-Settled) depth 9
  dial_body-Settled d (close name) ts = search rounds
  dial_body-Settled d (chars text) ts = search rounds
  dial_body-Settled d other ts = search rounds

  parse_dial-Settled :
      (attrs : List Attr) (ts : Tokens) → Settled (length ts) (parse_dial cut attrs ts)
  unfolding parse_dial
  parse_dial-Settled attrs ts =
      Coded-bind _ _ _ (attrs_of-Coded dial_attr dial_attr-Coded _ attrs)
        λ d. loop-Settled cut (dial_body cut) coded dial_body-Settled d ts

  redirect_body-Settled :
      (r : Redirect) (t : Token) (ts : Tokens) → Settled (length ts) (redirect_body cut r t ts)
  unfolding redirect_body
  redirect_body-Settled r (start name attrs) ts = search (rounds, skipped)
  redirect_body-Settled r (close name) ts = search rounds
  redirect_body-Settled r (chars text) ts = search rounds
  redirect_body-Settled r other ts = search rounds

  parse_redirect-Settled :
      (attrs : List Attr) (ts : Tokens) → Settled (length ts) (parse_redirect cut attrs ts)
  unfolding parse_redirect
  parse_redirect-Settled attrs ts =
      loop-Settled cut (redirect_body cut) coded redirect_body-Settled _ ts

  parse_verb-Settled :
      (name : String) (attrs : List Attr) (ts : Tokens)
      → Settled (length ts) (parse_verb cut name attrs ts)
  unfolding parse_verb
  parse_verb-Settled name attrs ts =
      search
        (
          Settled-if, Settled-map, skipped, skip_to_end-Settled, parse_connect-Settled,
          parse_dial-Settled, parse_redirect-Settled,
        )
        depth 9

  response_body-Settled :
      (r : Response) (t : Token) (ts : Tokens) → Settled (length ts) (response_body cut r t ts)
  unfolding response_body
  response_body-Settled r (start name attrs) ts = search (rounds, parse_verb-Settled)
  response_body-Settled r (close name) ts = Settled-if _ _ _ _ (Settled-ok _ ts) (rejected refl)
  response_body-Settled r (chars text) ts = search rounds
  response_body-Settled r other ts = search rounds

  parse_response_children-Settled :
      (ts : Tokens) → Settled (length ts) (parse_response_children cut ts)
  unfolding parse_response_children
  parse_response_children-Settled ts =
      loop-Settled cut (response_body cut) coded response_body-Settled (record { verbs = [] }) ts

cut_of-code : (stop : Stop) → (cut_of stop).code ≡ 12_100
unfolding cut_of
cut_of-code eof = refl
cut_of-code (syntax_error e) = refl

no_root-code : (stop : Stop) → (no_root stop).code ≡ 12_100
unfolding no_root
no_root-code eof = refl
no_root-code (syntax_error e) = refl

root_body-Settled :
    (stop : Stop) (s : Unit {0}) (t : Token) (ts : Tokens)
    → Settled (length ts) (root_body stop s t ts)
unfolding root_body
root_body-Settled stop s (start name attrs) ts =
    Settled-if _ _ _ _
      (Settled-map _ _ _ (parse_response_children-Settled (cut_of stop) (cut_of-code stop) ts))
      (rejected refl)
root_body-Settled stop s (close name) ts = search rounds
root_body-Settled stop s (chars text) ts = search rounds
root_body-Settled stop s other ts = search rounds

response_of-Coded : (n : ℕ) (o : Outcome (Response × Tokens)) → Settled n o → Coded (response_of o)
unfolding response_of
response_of-Coded n _ (returned h) = coded_ok
response_of-Coded n _ (rejected h) = coded_failed h

-- Parse returns on every sequence of tokens, well-nested or not, however the decoder ends: with a
-- document, or with an error whose code is 12100.
pub parse-Coded : (size : ℕ) (ts : Tokens) (stop : Stop) → Coded (parse size ts stop)
unfolding parse
parse-Coded size ts stop = Coded-if (size == 0) (coded_failed refl) (
    response_of-Coded (length ts) _ (
      loop-Settled (no_root stop) (root_body stop) (no_root-code stop) (root_body-Settled stop) tt
        ts))
