-- ===== src/Twiml/Events.antt =====
-- ParseStatusCallbackEvents of go/internal/twiml/parse.go.
pub mod Listed
use sipgate_sip_stream_bridg.Prelude.{
  String, ℕ, Bool, true, false, ◌||◌, List, [], ◌∷◌, ◌++◌, ◌==◌, if◌then◌else◌, ◌⊎◌, inl, inr,
}
use sipgate_sip_stream_bridg.Prelude.Text.{
  Text, codes, is_space, trim_space, same, is_empty, fields_func,
}

unfoldable pub has : Text → List Text → Bool
has k [] = false
has k (x ∷ xs) = same k x || has k xs

abbrev pub documented_events : List Text
documented_events =
    codes "initiated"
    ∷ codes "ringing"
    ∷ codes "answered"
    ∷ codes "in-progress"
    ∷ codes "completed"
    ∷ codes "busy"
    ∷ codes "failed"
    ∷ codes "no-answer"
    ∷ codes "canceled"
    ∷ []

unfoldable pub valid_status_callback_event : Text → Bool
unfolding has
valid_status_callback_event v = has v documented_events

-- unicode.IsSpace below 128; its other spaces, from U+0085 and U+00A0 on, are left out.
unfoldable pub is_separator : ℕ → Bool
is_separator c = c == b',' || is_space c

-- The loop over the fields, with what it has collected. An error names the unknown value.
unfoldable pub collect_events : List Text → List Text → Text ⊎ List Text
unfolding is_empty trim_space valid_status_callback_event
collect_events out [] = inr out
collect_events out (t ∷ ts) =
    let skipped = collect_events out ts in
    let taken = collect_events (out ++ trim_space t ∷ []) ts in
    if is_empty (trim_space t)
    then skipped
    else if valid_status_callback_event (trim_space t)
    then taken
    else inl (trim_space t)

unfoldable pub parse_status_callback_events : Text → Text ⊎ List Text
unfolding collect_events fields_func is_separator
parse_status_callback_events raw = collect_events [] (fields_func is_separator raw)

-- A documented event as a string.
unfoldable pub event_string : Text → String
unfolding same
event_string t =
    if same t (codes "initiated")
    then "initiated"
    else if same t (codes "ringing")
    then "ringing"
    else if same t (codes "answered")
    then "answered"
    else if same t (codes "in-progress")
    then "in-progress"
    else if same t (codes "completed")
    then "completed"
    else if same t (codes "busy")
    then "busy"
    else if same t (codes "failed")
    then "failed"
    else if same t (codes "no-answer")
    then "no-answer"
    else "canceled"

abbrev pub strings : List Text → List String
strings [] = []
strings (t ∷ ts) = event_string t ∷ strings ts
