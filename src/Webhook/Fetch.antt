-- ===== src/Webhook/Fetch.antt =====
-- go/internal/webhook/client.go, Fetch and FetchWithFallback: one attempt at a document, and a second
-- at the fallback URL. `send` stands for net/http: the error of building, sending or reading, or the
-- status and the body, which is cut at 1 MB.
pub mod Attempts
use sipgate_sip_stream_bridg.Prelude.{
  ℕ, String, Bool, true, false, ◌||◌, Option, none, some, List, [], ◌∷◌, ◌⊎◌, inl, inr, ltb, leb,
  str_eq, if◌then◌else◌,
}
use sipgate_sip_stream_bridg.Prelude.Text.{Text, codes, starts_with}

pub record FetchTarget : Type 0 where
  pub url : String
  pub method : String
  pub body : String

pub record FetchResult : Type 0 where
  pub body : Text
  pub status_code : ℕ
  pub url_used : String
  pub attempts : ℕ

pub data FetchError : Type 0 where
  empty_url non_https build_request request read_body : FetchError
  non_2xx : ℕ → FetchError
  all_attempts_failed : FetchError → FetchError → FetchError

abbrev pub Send : Type 0
Send = FetchTarget → FetchError ⊎ (ℕ × Text)

-- The request with its default method; only a POST carries the body.
unfoldable pub request_of : FetchTarget → FetchTarget
request_of t =
    let method = if str_eq t.method "" then "POST" else t.method in
    record t { method = method; body = if str_eq method "POST" then t.body else "" }

unfoldable pub result_of : String → FetchError ⊎ (ℕ × Text) → FetchError ⊎ FetchResult
result_of url (inl e) = inl e
result_of url (inr (status, body)) =
    if ltb status 200 || leb 300 status
    then inl (non_2xx status)
    else inr (record { body = body; status_code = status; url_used = url; attempts = 1 })

unfoldable pub fetch : Send → FetchTarget → FetchError ⊎ FetchResult
unfolding starts_with request_of result_of
fetch send t =
    if str_eq t.url ""
    then inl empty_url
    else if starts_with (codes "https://") (codes t.url)
    then result_of t.url (send (request_of t))
    else inl non_https

abbrev pub is_caller_error : FetchError → Bool
is_caller_error empty_url = true
is_caller_error non_https = true
is_caller_error _ = false

unfoldable pub after_fallback : FetchError → FetchError ⊎ FetchResult → FetchError ⊎ FetchResult
after_fallback e (inr r) = inr (record r { attempts = 2 })
after_fallback e (inl e') = inl (all_attempts_failed e e')

unfoldable pub after_primary :
    Send → FetchTarget → FetchError ⊎ FetchResult → FetchError ⊎ FetchResult
unfolding after_fallback
after_primary send fallback (inr r) = inr r
after_primary send fallback (inl e) =
    if is_caller_error e
    then inl e
    else if str_eq fallback.url ""
    then inl e
    else after_fallback e (fetch send fallback)

unfoldable pub fetch_with_fallback : Send → FetchTarget → FetchTarget → FetchError ⊎ FetchResult
unfolding after_primary
fetch_with_fallback send primary fallback = after_primary send fallback (fetch send primary)
