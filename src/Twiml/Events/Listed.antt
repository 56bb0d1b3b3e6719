-- ===== src/Twiml/Events/Listed.antt =====
-- ParseStatusCallbackEvents of go/internal/twiml/parse.go: how a list of events is read.
use mathlib.Core.List.{append_assoc, append-nil}
use sipgate_sip_stream_bridg.Prelude.{
  ℕ, ◌≡◌, refl, sym, ap, ◌∙◌, Bool, true, false, not, ◌&&◌, ◌||◌, ◌==◌, leb, List, [], ◌∷◌, ◌++◌,
  inr, Option, none, some, arith,
}
use sipgate_sip_stream_bridg.Prelude.Text.{
  Text, codes, same, is_space, trim_space, is_empty, fields_from, fields_func,
}
use sipgate_sip_stream_bridg.Twiml.Events.{
  valid_status_callback_event, is_separator, collect_events, parse_status_callback_events,
}

-- No code of the text passes the test, or all do.
abbrev pub none_of : (ℕ → Bool) → Text → Bool
none_of test [] = true
none_of test (c ∷ s) = not (test c) && none_of test s

abbrev pub all_of : (ℕ → Bool) → Text → Bool
all_of test [] = true
all_of test (c ∷ s) = test c && all_of test s

-- The nine documented events.
pub data Event : Type 0 where
  initiated ringing answered in_progress completed busy failed no_answer canceled : Event

abbrev pub spell : Event → Text
spell initiated = codes "initiated"
spell ringing = codes "ringing"
spell answered = codes "answered"
spell in_progress = codes "in-progress"
spell completed = codes "completed"
spell busy = codes "busy"
spell failed = codes "failed"
spell no_answer = codes "no-answer"
spell canceled = codes "canceled"

-- A documented event is a word that passes the test.
pub record IsWord (v : Text) : Type 0 where
  pub valid : valid_status_callback_event v ≡ true
  pub trimmed : trim_space v ≡ v
  pub full : is_empty v ≡ false
  pub plain : none_of is_separator v ≡ true

spell-IsWord : (e : Event) → IsWord (spell e)
unfolding valid_status_callback_event trim_space is_empty is_separator same
spell-IsWord initiated = record { valid = refl; trimmed = refl; full = refl; plain = refl }
spell-IsWord ringing = record { valid = refl; trimmed = refl; full = refl; plain = refl }
spell-IsWord answered = record { valid = refl; trimmed = refl; full = refl; plain = refl }
spell-IsWord in_progress = record { valid = refl; trimmed = refl; full = refl; plain = refl }
spell-IsWord completed = record { valid = refl; trimmed = refl; full = refl; plain = refl }
spell-IsWord busy = record { valid = refl; trimmed = refl; full = refl; plain = refl }
spell-IsWord failed = record { valid = refl; trimmed = refl; full = refl; plain = refl }
spell-IsWord no_answer = record { valid = refl; trimmed = refl; full = refl; plain = refl }
spell-IsWord canceled = record { valid = refl; trimmed = refl; full = refl; plain = refl }

-- A comma, a space, and the codes from tab to carriage return.
abbrev pub is_gap_code : ℕ → Bool
is_gap_code c = c == 44 || c == 32 || leb 9 c && leb c 13

-- The events with what follows each of them, and the last one, which nothing needs to follow.
abbrev pub written : List (Event × Text) → Option Event → Text
written [] none = []
written [] (some event) = spell event
written ((event, gap) ∷ rest) last = spell event ++ (gap ++ written rest last)

abbrev pub events_in : List (Event × Text) → Option Event → List Text
events_in [] none = []
events_in [] (some event) = spell event ∷ []
events_in ((event, gap) ∷ rest) last = spell event ∷ events_in rest last

-- At least one comma or space follows each event, and nothing else.
abbrev pub all_gapped : List (Event × Text) → Bool
all_gapped [] = true
all_gapped ((event, gap) ∷ rest) = not (is_empty gap) && all_of is_gap_code gap && all_gapped rest

both : (a b : Bool) → (a && b) ≡ true → (a ≡ true) × (b ≡ true)
both true b h = (refl, h)
both false b h = absurd (cc)

split : (a b : Bool) → (not a && b) ≡ true → (a ≡ false) × (b ≡ true)
split false b h = (refl, h)
split true b h = absurd (cc)

filled : (b : Bool) → not b ≡ true → b ≡ false
filled true h = absurd (cc)
filled false h = refl

fields_word :
    (test : ℕ → Bool) (field w s : Text)
    → none_of test w ≡ true
    → fields_from test field (w ++ s) ≡ fields_from test (field ++ w) s
unfolding fields_from
fields_word test field [] s h = rw (append-nil field)
fields_word test field (c ∷ w) s h =
    let (plain, rest) = split (test c) (none_of test w) h in
    rw plain (
      fields_word test (field ++ c ∷ []) w s rest
      ∙ ap (λ f. fields_from test f s) (append_assoc field (c ∷ []) w))

fields_gap :
    (test : ℕ → Bool) (gap s : Text)
    → all_of test gap ≡ true
    → fields_from test [] (gap ++ s) ≡ fields_from test [] s
unfolding fields_from is_empty
fields_gap test [] s h = refl
fields_gap test (c ∷ gap) s h =
    let (gaps, rest) = both (test c) (all_of test gap) h in rw gaps (fields_gap test gap s rest)

-- A field ends at a separator.
fields_end :
    (test : ℕ → Bool) (field gap s : Text)
    → is_empty field ≡ false
    → is_empty gap ≡ false
    → all_of test gap ≡ true
    → fields_from test field (gap ++ s) ≡ field ∷ fields_from test [] s
unfolding fields_from is_empty
fields_end test field [] s h e g = absurd (cc)
fields_end test field (c ∷ gap) s h e g =
    let (gaps, rest) = both (test c) (all_of test gap) g in
    rw (gaps, h) (ap (◌∷◌ field) (fields_gap test gap s rest))

gap-is_separator : (c : ℕ) → is_gap_code c ≡ true → is_separator c ≡ true
unfolding is_separator is_space
gap-is_separator c h = ground arith

gap-all_of : (gap : Text) → all_of is_gap_code gap ≡ true → all_of is_separator gap ≡ true
gap-all_of [] h = refl
gap-all_of (c ∷ gap) h =
    let (one, rest) = both (is_gap_code c) (all_of is_gap_code gap) h in
    rw (gap-is_separator c one, gap-all_of gap rest) refl

-- What the test of a written event says.
gapped :
    (event : Event) (gap : Text) (rest : List (Event × Text))
    → all_gapped ((event, gap) ∷ rest) ≡ true
    → (is_empty gap ≡ false) × (all_of is_separator gap ≡ true) × (all_gapped rest ≡ true)
gapped event gap rest h =
    let (a, ok) = both _ (all_gapped rest) h in
    let (full, gaps) = both (not (is_empty gap)) (all_of is_gap_code gap) a in
    (filled (is_empty gap) full, gap-all_of gap gaps, ok)

fields_last :
    (test : ℕ → Bool) (w : Text)
    → none_of test w ≡ true
    → is_empty w ≡ false
    → fields_from test [] w ≡ w ∷ []
unfolding fields_from
fields_last test w plain full =
    ap (fields_from test []) (sym (append-nil w)) ∙ fields_word test [] w [] plain ∙ rw full refl

fields_written :
    (parts : List (Event × Text)) (last : Option Event)
    → all_gapped parts ≡ true
    → fields_from is_separator [] (written parts last) ≡ events_in parts last
unfolding fields_from is_empty
fields_written [] none h = refl
fields_written [] (some event) h =
    let w = spell-IsWord event in fields_last is_separator (spell event) w.plain w.full
fields_written ((event, gap) ∷ rest) last h =
    let (full, gaps, ok) = gapped event gap rest h in
    let w = spell-IsWord event in
    fields_word is_separator [] (spell event) (gap ++ written rest last) w.plain
    ∙ (fields_end is_separator (spell event) gap (written rest last) w.full full gaps
        ∙ ap (◌∷◌ (spell event)) (fields_written rest last ok))

collect_one :
    (out ts : List Text) (event : Event)
    → collect_events out (spell event ∷ ts) ≡ collect_events (out ++ spell event ∷ []) ts
unfolding collect_events
collect_one out ts event = let w = spell-IsWord event in rw (w.trimmed, w.full, w.valid) refl

collect_all :
    (out : List Text) (parts : List (Event × Text)) (last : Option Event)
    → collect_events out (events_in parts last) ≡ inr (out ++ events_in parts last)
unfolding collect_events
collect_all out [] none = ap inr (sym (append-nil out))
collect_all out [] (some event) = collect_one out [] event
collect_all out ((event, gap) ∷ rest) last =
    collect_one out (events_in rest last) event
    ∙ collect_all (out ++ spell event ∷ []) rest last
    ∙ ap inr (append_assoc out (spell event ∷ []) (events_in rest last))

-- A list of the nine documented events is read as these events in their order, if at least one comma,
-- space, tab, line feed, vertical tab, form feed or carriage return stands between two events, in any
-- mix; any number of them may stand before the first and behind the last.
pub parse_status_callback_events-written :
    (lead : Text) (parts : List (Event × Text)) (last : Option Event)
    → all_of is_gap_code lead ≡ true
    → all_gapped parts ≡ true
    → parse_status_callback_events (lead ++ written parts last) ≡ inr (events_in parts last)
unfolding parse_status_callback_events fields_func
parse_status_callback_events-written lead parts last before h =
    ap (collect_events []) (
      fields_gap is_separator lead (written parts last) (gap-all_of lead before)
      ∙ fields_written parts last h)
    ∙ collect_all [] parts last
