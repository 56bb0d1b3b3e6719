-- ===== src/Twiml/Dispatch/Order.antt =====
-- go/internal/twiml/dispatch.go and verb_dial.go: which verbs run, and the order of the calls that
-- they make.
use mathlib.Core.List.{append_assoc, append-nil}
use sipgate_sip_stream_bridg.Prelude.{
  ◌≡◌, refl, sym, ap, String, Bool, true, false, Option, none, some, List, [], ◌∷◌, ◌++◌, ◌⊎◌, inl,
  inr, if◌then◌else◌, Bool-cases,
}
use sipgate_sip_stream_bridg.Prelude.Text.{Text, is_empty}
use sipgate_sip_stream_bridg.Twiml.Verbs.{
  Dial, Verb, connect, dial, hangup, redirect, reject, unknown_verb, resolve_dial_target,
}
use sipgate_sip_stream_bridg.Twiml.Dispatch.{
  DialOpts, DialResult, DialTarget, MidCallTarget, twilio_reason, dial_opts, dial_prepared,
  dial_with, dial_handler, walk_verbs,
}

-- The verbs that end the walk for a call that can dial.
abbrev pub is_terminal_verb : Verb → Bool
is_terminal_verb hangup = true
is_terminal_verb (dial d) = true
is_terminal_verb _ = false

abbrev pub all_skipped : List Verb → Bool
all_skipped [] = true
all_skipped (v ∷ vs) = if is_terminal_verb v then false else all_skipped vs

-- The calls that a verb made, the oldest first.
pub data Made : Type 0 where
  prepared : DialOpts → Made
  performed : Text → Made
  terminated : String → Made
  released : Made

-- A call that notes what it is asked to do, and answers as it is told.
abbrev pub noting_dial :
    (String ⊎ Unit {0}) → Option DialResult × Option String → DialTarget (List Made) (Unit {0})
noting_dial prepare perform = record {
  prepare_dial = λ opts made. (made ++ prepared opts ∷ [], prepare);
  perform_dial = λ target opts _ made. (made ++ performed target ∷ [], perform);
  release = λ _ made. made ++ released ∷ [];
}

abbrev pub noting :
    (String ⊎ Unit {0})
    → Option DialResult × Option String
    → Option String
    → MidCallTarget (List Made) (Unit {0})
noting prepare perform terminate = record {
  terminate = λ reason made. (made ++ terminated reason ∷ [], terminate);
  dialing = some (noting_dial prepare perform);
}

-- What one <Dial> asks of the call.
abbrev pub dial_calls : (String ⊎ Unit {0}) → Option DialResult → Dial → List Made
dial_calls prepare result d =
    if is_empty (resolve_dial_target d).0
    then []
    else prepared (dial_opts d) ∷ elim prepare [
      | inl error ↦ terminated "failed" ∷ []
      | inr _ ↦
          performed (resolve_dial_target d).0 ∷ terminated (twilio_reason result) ∷ released ∷ []
    ]

-- The calls that a <Dial> makes, in their order: without a target none; PrepareDial, and if it fails
-- Terminate("failed"); else PerformDial, Terminate with the reason of the result, and the release of the
-- handle last. What Terminate returns is the handler's error, and nothing else is.
dial_handler-calls :
    (prepare : String ⊎ Unit {0}) (perform : Option DialResult × Option String)
    (terminate : Option String) (d : Dial) (made : List Made)
    → dial_handler (noting prepare perform terminate) (noting_dial prepare perform) d made ≡ (
      made ++ dial_calls prepare perform.0 d,
      if is_empty (resolve_dial_target d).0 then none else terminate,
    )
unfolding dial_handler dial_with dial_prepared
dial_handler-calls (inl error) perform terminate d made =
    elim (Bool-cases (is_empty (resolve_dial_target d).0)) [
      | inl e ↦ rw e (ap (λ m. (m, none)) (sym (append-nil made)))
      | inr e ↦ rw e (simp append_assoc)
    ]
dial_handler-calls (inr handle) perform terminate d made =
    elim (Bool-cases (is_empty (resolve_dial_target d).0)) [
      | inl e ↦ rw e (ap (λ m. (m, none)) (sym (append-nil made)))
      | inr e ↦ rw e (simp append_assoc)
    ]

module _ {ℓ} {S H : Type ℓ} (t : MidCallTarget S H) (dt : DialTarget S H) where
  -- For a call that can dial, the verbs before the first <Hangup> or <Dial> do nothing, and those
  -- after it are not reached.
  walk_verbs-append :
      (before after : List Verb) (v : Verb) (s : S)
      → all_skipped before ≡ true
      → is_terminal_verb v ≡ true
      → walk_verbs t (some dt) (before ++ v ∷ after) s ≡ walk_verbs t (some dt) (v ∷ []) s
  unfolding walk_verbs
  walk_verbs-append [] after hangup s h e = refl
  walk_verbs-append [] after (dial d) s h e = refl
  walk_verbs-append [] after (connect c) s h e = absurd (cc)
  walk_verbs-append [] after (redirect c) s h e = absurd (cc)
  walk_verbs-append [] after (reject c) s h e = absurd (cc)
  walk_verbs-append [] after (unknown_verb c) s h e = absurd (cc)
  walk_verbs-append (hangup ∷ before) after v s h e = absurd (cc)
  walk_verbs-append (dial d ∷ before) after v s h e = absurd (cc)
  walk_verbs-append (connect c ∷ before) after v s h e = walk_verbs-append before after v s h e
  walk_verbs-append (redirect c ∷ before) after v s h e = walk_verbs-append before after v s h e
  walk_verbs-append (reject c ∷ before) after v s h e = walk_verbs-append before after v s h e
  walk_verbs-append (unknown_verb c ∷ before) after v s h e = walk_verbs-append before after v s h e
