-- ===== src/Observability.antt =====
-- go/internal/observability/metrics.go: the functions that keep the labels of the metrics within a
-- few values.
use sipgate_sip_stream_bridg.Prelude.{
  String, Bool, false, ◌||◌, List, [], ◌∷◌, str_eq, if◌then◌else◌,
}
use sipgate_sip_stream_bridg.Prelude.Text.{Text, codes, to_lower, contains_text}

unfoldable pub contains_ci : Text → Text → Bool
unfolding contains_text to_lower
contains_ci s part = contains_text (to_lower s) (to_lower part)

-- Whether one of the texts is in the message: the cases of a `switch`.
unfoldable pub contains_any : Text → List Text → Bool
unfolding contains_ci
contains_any msg [] = false
contains_any msg (p ∷ ps) = contains_ci msg p || contains_any msg ps

-- BucketForwardReason of an error with this message; "" leaves the choice to the caller.
unfoldable pub bucket_forward_reason : Text → String
unfolding contains_any
bucket_forward_reason msg =
    if contains_any msg (codes "ErrTollFraudBlocked" ∷ codes "toll-fraud" ∷ codes "toll_fraud" ∷ [])
    then "toll_fraud"
    else if contains_any msg (
        codes "ErrSessionRateLimit"
        ∷ codes "ErrGlobalRateLimit"
        ∷ codes "rate limit"
        ∷ codes "rate-limit"
        ∷ codes "rate_limit"
        ∷ [])
    then "rate_limit"
    else if contains_any msg
        (codes "13214" ∷ codes "caller-id" ∷ codes "caller_id" ∷ codes "callerid" ∷ [])
    then "caller_id_rejected"
    else if contains_any msg (codes "486" ∷ codes "Busy" ∷ [])
    then "busy"
    else if contains_any msg (codes "603" ∷ codes "Decline" ∷ [])
    then "rejected"
    else if contains_any msg
        (codes "408" ∷ codes "480" ∷ codes "no-answer" ∷ codes "no answer" ∷ codes "no_answer" ∷ [])
    then "no_answer"
    else if contains_any msg (codes "codec" ∷ [])
    then "codec_mismatch"
    else if contains_any msg (codes "401" ∷ codes "407" ∷ codes "auth" ∷ [])
    then "auth_failed"
    else if contains_any msg
        (codes "5xx" ∷ codes "500" ∷ codes "502" ∷ codes "503" ∷ codes "504" ∷ [])
    then "trunk_5xx"
    else if contains_any msg (codes "timeout" ∷ codes "deadline" ∷ [])
    then "timeout"
    else if contains_any msg (codes "unreachable" ∷ codes "no route" ∷ codes "DNS" ∷ [])
    then "unreachable"
    else ""

unfoldable pub bucket_outcome : String → String
bucket_outcome status =
    if str_eq status "answered"
    then "answered"
    else if str_eq status "no-answer"
    then "no_answer"
    else if str_eq status "busy"
    then "busy"
    else "error"
