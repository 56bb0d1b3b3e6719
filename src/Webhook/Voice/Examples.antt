-- ===== src/Webhook/Voice/Examples.antt =====
-- Tests of go/internal/webhook/signer.go and voice.go.
use sipgate_sip_stream_bridg.Prelude.{
  if◌then◌else◌, ℕ, ◌≡◌, refl, true, List, [], ◌∷◌, ◌⊎◌, inl, inr, arith,
}
use sipgate_sip_stream_bridg.Prelude.Text.{Text, codes, same, starts_with, trim_prefix}
use sipgate_sip_stream_bridg.Webhook.Signer.{Form, sign, holds, values, keys}
use sipgate_sip_stream_bridg.Webhook.Signer.Canonical.{sign_ext}
use sipgate_sip_stream_bridg.Webhook.Signer.Order.{distinct}
use sipgate_sip_stream_bridg.Webhook.Voice.{
  VoiceClient, VoiceParams, VoiceError, VoiceRequest, transport, is_localhost_http,
}

abbrev hmac_of : Text → Text → List ℕ
hmac_of k t = t

abbrev base64_of : List ℕ → Text
base64_of bytes = bytes

abbrev two_values : Form
two_values = (codes "StatusCallbackEvent", codes "ringing" ∷ codes "answered" ∷ []) ∷ []

abbrev three_values : Form
three_values =
    (codes "StatusCallbackEvent", codes "answered" ∷ codes "ringing" ∷ codes "answered" ∷ []) ∷ []

values-same : (k v : Text) → holds v (values k two_values) ≡ holds v (values k three_values)
unfolding values holds
values-same k v = ground arith

one_key : distinct (keys two_values) ≡ true
unfolding keys holds
one_key = refl

sign_ext_example :
    sign hmac_of base64_of (codes "secret") (codes "https://example.com/") two_values
    ≡ sign hmac_of base64_of (codes "secret") (codes "https://example.com/") three_values
unfolding keys
sign_ext_example =
    sign_ext hmac_of base64_of (codes "secret") (codes "https://example.com/") two_values
      three_values one_key one_key (λ k. refl) values-same

abbrev voice_client : VoiceClient
voice_client = record {
  primary_url = codes "https://a.example/voice";
  primary_method = codes "POST";
  fallback_url = codes "https://b.example/voice";
  fallback_method = codes "GET";
  auth_token = codes "secret";
  outcomes = [];
}

abbrev voice_params : VoiceParams
voice_params = record { call_sid = "CA1"; account_sid = "AC1"; from = "+491"; to = "+492" }

-- The primary is down.
abbrev send : VoiceRequest → VoiceError ⊎ (ℕ × Text)
send r =
    if same r.url (codes "https://b.example/voice")
    then inr (200, codes "<Response/>")
    else inl (transport (codes "connection refused"))

-- The test of a prefix takes a host that is not this one.
foreign_localhost : is_localhost_http (codes "http://localhost.example.com/") ≡ true
unfolding is_localhost_http starts_with trim_prefix
foreign_localhost = refl
