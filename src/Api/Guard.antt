-- ===== src/Api/Guard.antt =====
-- go/internal/api/server.go, security.go and auth.go: what stands before a handler of the REST API. A
-- handler gets the headers that are set so far and the state, and gives the response and the state; the
-- state of the middleware is that of the handler and the counter of the requests by its labels. net/http
-- is outside: a request has the body limit of http.MaxBytesReader, which the handlers' reads obey.
pub mod Mounted
pub mod Examples
use sipgate_sip_stream_bridg.Prelude.{
  ℕ, String, Bool, true, false, not, ◌&&◌, ◌||◌, Option, none, some, List, [], ◌∷◌, ◌++◌, ltb,
  str_eq, if◌then◌else◌,
}
use sipgate_sip_stream_bridg.Prelude.Int.{ℤ, pos, negsuc}
use sipgate_sip_stream_bridg.Prelude.Dict.{Dict, load, store}

-- A content length that is not declared is -1; `path_sid` is chi.URLParam, empty if there is none.
pub record Request : Type 0 where
  pub method : String
  pub content_length : ℤ
  pub credentials : Option (String × String)
  pub path_sid : String
  pub body_limit : Option ℕ

-- `status` 0 stands for a handler that writes nothing; of a JSON error its Twilio code is kept.
pub record Response : Type 0 where
  pub headers : Dict String
  pub status : ℕ
  pub error_code : Option ℕ

abbrev pub Handler {ℓ} : Type ℓ → Type ℓ
Handler S = Request → Dict String → S → S × Response

-- WriteJSON of an error.
abbrev pub write_error : ℕ → ℕ → Dict String → Response
write_error code status headers = record {
  headers = store "Content-Type" "application/json" headers;
  status = status;
  error_code = some code;
}

unfoldable pub unauth : Dict String → Response
unfolding store
unauth headers =
    write_error 20_003 401 (store "WWW-Authenticate" "Basic realm=\"Twilio API\"" headers)

unfoldable pub secured : Dict String → Dict String
unfolding store
secured headers = store "X-Content-Type-Options" "nosniff" (
    store "Content-Security-Policy" "default-src 'none'; frame-ancestors 'none'"
      (store "Strict-Transport-Security" "max-age=63072000; includeSubDomains" headers))

unfoldable pub is_longer : ℕ → ℤ → Bool
is_longer limit (pos n) = ltb limit n
is_longer limit (negsuc n) = false

-- Both comparisons of BasicAuth, and the one of the path.
unfoldable pub is_authorized : String → String → Request → Bool
is_authorized account_sid auth_token r = elim r.credentials [
  | none ↦ false
  | some (user, pass) ↦
      (str_eq user account_sid && str_eq pass auth_token)
      && (str_eq r.path_sid "" || str_eq r.path_sid account_sid)
]

-- BucketStatus
unfoldable pub bucket_status : ℕ → String
bucket_status code =
    if ltb code 100
    then "2xx"
    else if ltb code 400
    then "2xx"
    else if ltb code 500
    then "4xx"
    else "5xx"

-- api_requests_total: route, method and bucket of each request that was counted.
pub record Counted {ℓ} (S : Type ℓ) : Type ℓ where
  pub inner : S
  pub requests : List (String × (String × String))

module _ {ℓ} {S : Type ℓ} where
  unfoldable pub security_headers : Handler S → Handler S
  unfolding secured
  security_headers next r headers s = next r (secured headers) s

  unfoldable pub max_bytes_reader : ℕ → Handler S → Handler S
  unfolding is_longer
  max_bytes_reader limit next r headers s =
      if is_longer limit r.content_length
      then (s, write_error 21_617 413 headers)
      else next (record r { body_limit = some limit }) headers s

  unfoldable pub basic_auth : String → String → Handler S → Handler S
  unfolding is_authorized unauth
  basic_auth account_sid auth_token next r headers s =
      if is_authorized account_sid auth_token r then next r headers s else (s, unauth headers)

unfoldable pub metrics_middleware {ℓ} : {S : Type ℓ} → String → Handler S → Handler (Counted S)
unfolding bucket_status
metrics_middleware route next r headers s =
    let (inner, response) = next r headers s.inner in
    (
      record {
        inner = inner;
        requests = s.requests ++ (route, (r.method, bucket_status response.status)) ∷ [];
      },
      response,
    )

-- The chain that Mount builds around a handler.
unfoldable pub mount {ℓ} : {S : Type ℓ} → String → String → String → Handler S → Handler (Counted S)
unfolding security_headers max_bytes_reader basic_auth metrics_middleware
mount account_sid auth_token route next =
    security_headers
      (max_bytes_reader 65_536 (basic_auth account_sid auth_token (metrics_middleware route next)))
