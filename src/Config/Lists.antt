-- ===== src/Config/Lists.antt =====
-- go/internal/config/config.go: the comma-separated lists that Load reads, of events and of prefixes.
use sipgate_sip_stream_bridg.Prelude.{
  Bool, true, ◌&&◌, ◌||◌, List, [], ◌∷◌, ◌++◌, inl, inr, leb, ◌==◌, if◌then◌else◌,
}
use sipgate_sip_stream_bridg.Prelude.Text.{Text, is_empty, to_lower, trim_space}
use sipgate_sip_stream_bridg.Twiml.Events.{valid_status_callback_event}
use sipgate_sip_stream_bridg.Config.Tests.{Checked, event_unknown, prefix_malformed}

-- strings.Split by ",", with the piece that is being read.
unfoldable pub split_from : Text → Text → List Text
split_from piece [] = piece ∷ []
split_from piece (c ∷ s) =
    let next = split_from [] s in
    let on = split_from (piece ++ c ∷ []) s in if c == b',' then piece ∷ next else on

abbrev pub clean : Text → Text
clean t = trim_space (to_lower t)

-- The loop over the events, with `anyEvent`.
unfoldable pub check_events : Bool → List Text → Checked Bool
unfolding is_empty trim_space to_lower valid_status_callback_event
check_events any [] = inr any
check_events any (t ∷ ts) =
    let skipped = check_events any ts in
    let taken = check_events true ts in
    if is_empty (clean t)
    then skipped
    else if valid_status_callback_event (clean t)
    then taken
    else inl event_unknown

unfoldable pub all_digits : Text → Bool
all_digits [] = true
all_digits (c ∷ s) = leb b'0' c && leb c b'9' && all_digits s

-- The loop over the characters of a prefix; a "+" at the start is passed over.
unfoldable pub is_prefix : Text → Bool
unfolding all_digits
is_prefix [] = true
is_prefix (c ∷ s) = (c == b'+' || (leb b'0' c && leb c b'9')) && all_digits s

-- The loop over the prefixes, with those that it has kept.
unfoldable pub check_prefixes : List Text → List Text → Checked (List Text)
unfolding is_empty trim_space to_lower is_prefix
check_prefixes norm [] = inr norm
check_prefixes norm (p ∷ ps) =
    let skipped = check_prefixes norm ps in
    let taken = check_prefixes (norm ++ clean p ∷ []) ps in
    if is_empty (clean p)
    then skipped
    else if is_prefix (clean p)
    then taken
    else inl prefix_malformed
