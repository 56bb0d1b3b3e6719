-- ===== src/Sip/Guardrails/Examples.antt =====
-- Tests of go/internal/sip/guardrails.go.
use sipgate_sip_stream_bridg.Prelude.{ℕ, ◌≤◌, ◌≡◌, refl, List, [], ◌∷◌, arith}
use sipgate_sip_stream_bridg.Prelude.Text.{
  codes, starts_with, remove_if, trim_prefix, to_lower, trim_space,
}
use sipgate_sip_stream_bridg.Sip.Guardrails.{new_guardrails, normalize_target, session_count}
use sipgate_sip_stream_bridg.Sip.Guardrails.Window.{window_count}
use sipgate_sip_stream_bridg.Sip.Guardrails.History.{
  Call, dials, ends, seconds, run, rolling_limit, live_dials, session_limit,
}

-- Two dials in one second, a third 59 seconds later, one after the minute.
abbrev busy_minute : List (ℕ × Call)
busy_minute =
    (100, dials "CA1" (codes "tel:+4912345"))
    ∷ (100, dials "CA2" (codes "+49 777"))
    ∷ (159, dials "CA1" (codes "0049999"))
    ∷ (160, ends "CA1")
    ∷ (161, dials "CA1" (codes "0049999"))
    ∷ []

rolling_limit_example :
    window_count 162 (seconds (run (new_guardrails (codes "+49" ∷ []) 3 2, []) busy_minute).1) ≤ 2
rolling_limit_example = rolling_limit (codes "+49" ∷ []) 3 2 162 busy_minute (omega arith)

session_limit_example :
    let (g, trace) = run (new_guardrails (codes "+49" ∷ []) 3 2, []) busy_minute in
    (session_count g "CA1" ≡ live_dials "CA1" trace) × (live_dials "CA1" trace ≤ 3)
session_limit_example = session_limit (codes "+49" ∷ []) 3 2 busy_minute "CA1"

normalized : normalize_target (codes " TEL:00 49 123 ") ≡ codes "+49123"
unfolding normalize_target starts_with remove_if trim_prefix to_lower trim_space
normalized = refl
