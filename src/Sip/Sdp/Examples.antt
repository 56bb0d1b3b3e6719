-- ===== src/Sip/Sdp/Examples.antt =====
-- Tests of go/internal/sip/sdp.go.
use sipgate_sip_stream_bridg.Prelude.{
  ℕ, String, ◌≡◌, ◌≢◌, ◌⊎◌, false, Option, some, [], ◌∷◌, ◌==◌, if◌then◌else◌,
}
use sipgate_sip_stream_bridg.Prelude.Text.{Text, codes}
use sipgate_sip_stream_bridg.Sip.Sdp.{CallerSdp, negotiated_pt, answer_formats}
use sipgate_sip_stream_bridg.Sip.Sdp.Negotiation.{IsNegotiated, negotiated_pt_lem}

-- The offer of sipgate: PCMA, PCMU and telephone-event 113.
abbrev caller : CallerSdp
caller = record { dtmf_payload_type = 113; audio_payload_types = 8 ∷ 0 ∷ []; is_srtp = false }

abbrev mode : String
mode = "best"

negotiated_pt_example :
    ((mode ≡ "best")
      × IsNegotiated (8 ∷ 0 ∷ []) 113 (negotiated_pt mode caller) (answer_formats mode caller))
    ⊎ ((mode ≢ "best")
        × (negotiated_pt mode caller ≡ 0)
        × (answer_formats mode caller ≡ 0 ∷ 113 ∷ []))
negotiated_pt_example = negotiated_pt_lem mode caller

abbrev codec : ℕ → Option Text
codec pt = if pt == 113 then some (codes "telephone-event") else some (codes "PCMA")
