-- ===== src/Webhook/Voice/Counted.antt =====
-- go/internal/webhook/voice.go: what one Fetch counts, and where its document comes from.
use sipgate_sip_stream_bridg.Prelude.{ℕ, ◌≤◌, ◌<◌, ◌≡◌, String, List, [], ◌∷◌, ◌++◌, ◌⊎◌, inl, inr}
use sipgate_sip_stream_bridg.Prelude.Text.{Text, codes}
use sipgate_sip_stream_bridg.Webhook.Signer.{Form}
use sipgate_sip_stream_bridg.Webhook.Voice.{VoiceClient, VoiceError, VoiceRequest, voice_request}

abbrev pub BeginsWith : Text → Text → Type 0
BeginsWith p u = (rest : Text) × (u ≡ p ++ rest)

-- https://, http://localhost or http://127.0.0.1, and anything behind it.
abbrev pub HasVoicePrefix : Text → Type 0
HasVoicePrefix u =
    BeginsWith (codes "https://") u
    ⊎ BeginsWith (codes "http://localhost") u
    ⊎ BeginsWith (codes "http://127.0.0.1") u

module _ (hmac_sha1 : Text → Text → List ℕ) (base64 : List ℕ → Text)
    (send : VoiceRequest → VoiceError ⊎ (ℕ × Text)) where
  -- The 2xx answer to the request for an allowed URL.
  abbrev pub Sent : VoiceClient → Form → Text → Text → Text → Type 0
  Sent c form url method body =
      (status : ℕ) × (send (voice_request hmac_sha1 base64 send c url method form)
        ≡ inr (status, body))
      × (200 ≤ status)
      × (status < 300)
      × HasVoicePrefix url

  -- What a Fetch counts, by how it ends.
  abbrev pub Counts : VoiceClient → Form → VoiceClient × (VoiceError ⊎ (Text × String)) → Type 0
  Counts c form (c', inr (body, used)) =
      ((used ≡ "primary")
        × (c' ≡ record c { outcomes = c.outcomes ++ "ok" ∷ [] })
        × Sent c form c.primary_url c.primary_method body)
      ⊎ ((used ≡ "fallback")
          × (c' ≡ record c { outcomes = c.outcomes ++ "fallback_ok" ∷ [] })
          × Sent c form c.fallback_url c.fallback_method body)
  Counts c form (c', inl e) =
      (c' ≡ record c { outcomes = c.outcomes ++ "timeout" ∷ [] })
      ⊎ (c' ≡ record c { outcomes = c.outcomes ++ "http_error" ∷ [] })

  Answered : VoiceError ⊎ (ℕ × Text) → Text → Type 0
  Answered o body = (status : ℕ) × (o ≡ inr (status, body)) × (200 ≤ status) × (status < 300)
