-- ===== src/Webhook/Voice.antt =====
-- go/internal/webhook/voice.go: the document of a call that comes in, from VOICE_URL or its fallback.
-- `send` stands for net/http: the error of building, sending or reading, by its message, or the status
-- and the body, which is cut at 1 MB. Of the message of a status the number is left out.
pub mod Counted
pub mod Examples
use sipgate_sip_stream_bridg.Prelude.{
  ℕ, String, Bool, true, false, ◌||◌, not, Option, none, some, List, [], ◌∷◌, ◌++◌, ◌⊎◌, inl, inr,
  ltb, leb, if◌then◌else◌,
}
use sipgate_sip_stream_bridg.Prelude.Text.{
  Text, codes, is_empty, same, starts_with, trim_prefix, contains_text, upper,
}
use sipgate_sip_stream_bridg.Webhook.Signer.{Form, sign}

pub record VoiceParams : Type 0 where
  pub call_sid : String
  pub account_sid : String
  pub from : String
  pub to : String

-- `outcomes` is VoiceFetchTotal by its label.
pub record VoiceClient : Type 0 where
  pub primary_url : Text
  pub primary_method : Text
  pub fallback_url : Text
  pub fallback_method : Text
  pub auth_token : Text
  pub outcomes : List String

pub data VoiceError : Type 0 where
  empty_url non_https : VoiceError
  transport : Text → VoiceError
  non_2xx : ℕ → VoiceError
  all_attempts_failed : VoiceError → VoiceError → VoiceError

-- Error()
unfoldable pub message : VoiceError → Text
message empty_url = codes "webhook: empty URL"
message non_https = codes "webhook: non-https URL not permitted"
message (transport m) = m
message (non_2xx status) = codes "voice: non-2xx status"
message (all_attempts_failed p f) =
    codes "webhook: all attempts failed: primary="
    ++ (message p ++ (codes " fallback=" ++ message f))

-- `plain` says that the client without the SSRF guard sends it.
pub record VoiceRequest : Type 0 where
  pub plain : Bool
  pub method : Text
  pub url : Text
  pub form : Option Form
  pub signature : Option Text

unfoldable pub is_localhost_http : Text → Bool
unfolding starts_with trim_prefix
is_localhost_http u =
    let rest = trim_prefix (codes "http://") u in
    if starts_with (codes "http://") u
    then starts_with (codes "localhost") rest || starts_with (codes "127.0.0.1") rest
    else false

unfoldable pub is_allowed_voice_url : Text → Bool
unfolding starts_with is_localhost_http
is_allowed_voice_url u = starts_with (codes "https://") u || is_localhost_http u

abbrev field : String → String → Text × List Text
field k v = (codes k, codes v ∷ [])

unfoldable pub build_form : VoiceParams → Form
build_form p =
    field "CallSid" p.call_sid
    ∷ field "AccountSid" p.account_sid
    ∷ field "From" p.from
    ∷ field "To" p.to
    ∷ field "CallStatus" "ringing"
    ∷ field "Direction" "inbound"
    ∷ field "ApiVersion" "2010-04-01"
    ∷ field "ForwardedFrom" ""
    ∷ []

unfoldable pub http_err_outcome : VoiceError → String
unfolding contains_text message
http_err_outcome e =
    if contains_text (message e) (codes "timeout")
      || (contains_text (message e) (codes "context deadline")
          || contains_text (message e) (codes "context canceled"))
    then "timeout"
    else "http_error"

unfoldable pub body_of : VoiceError ⊎ (ℕ × Text) → VoiceError ⊎ Text
body_of (inl e) = inl e
body_of (inr (status, body)) =
    if ltb status 200 || leb 300 status then inl (non_2xx status) else inr body

abbrev count : String → VoiceClient → VoiceClient
count outcome c = record c { outcomes = c.outcomes ++ outcome ∷ [] }

module _ (hmac_sha1 : Text → Text → List ℕ) (base64 : List ℕ → Text)
    (send : VoiceRequest → VoiceError ⊎ (ℕ × Text)) where
  -- The form goes with a POST only, and into its signature only.
  unfoldable pub voice_request : VoiceClient → Text → Text → Form → VoiceRequest
  unfolding is_localhost_http sign same is_empty
  voice_request c url method form =
      let posted = same (upper method) (codes "POST") in
      record {
        plain = is_localhost_http url;
        method = upper method;
        url = url;
        form = if posted then some form else none;
        signature =
            if is_empty c.auth_token
            then none
            else some (sign hmac_sha1 base64 c.auth_token url (if posted then form else []));
      }

  unfoldable pub fetch_one : VoiceClient → Text → Text → Form → VoiceError ⊎ Text
  unfolding is_allowed_voice_url body_of voice_request is_empty
  fetch_one c url method form =
      if is_empty url
      then inl empty_url
      else if is_allowed_voice_url url
      then body_of (send (voice_request c url method form))
      else inl non_https

  unfoldable pub after_fallback :
      VoiceClient → VoiceError → VoiceError ⊎ Text → VoiceClient × (VoiceError ⊎ (Text × String))
  after_fallback c e (inr body) = (count "fallback_ok" c, inr (body, "fallback"))
  after_fallback c e (inl e') = (count "http_error" c, inl (all_attempts_failed e e'))

  unfoldable pub after_primary :
      VoiceClient → Form → VoiceError ⊎ Text → VoiceClient × (VoiceError ⊎ (Text × String))
  unfolding after_fallback http_err_outcome fetch_one is_empty
  after_primary c form (inr body) = (count "ok" c, inr (body, "primary"))
  after_primary c form (inl e) =
      if is_empty c.fallback_url
      then (count (http_err_outcome e) c, inl e)
      else after_fallback c e (fetch_one c c.fallback_url c.fallback_method form)

  -- VoiceClient.Fetch
  unfoldable pub fetch : VoiceClient → VoiceParams → VoiceClient × (VoiceError ⊎ (Text × String))
  unfolding after_primary build_form fetch_one
  fetch c p =
      after_primary c (build_form p) (fetch_one c c.primary_url c.primary_method (build_form p))
