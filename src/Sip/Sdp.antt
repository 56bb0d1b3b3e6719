-- ===== src/Sip/Sdp.antt =====
-- go/internal/sip/sdp.go: which payload types the offer of a caller gives, and which the answer takes.
-- The SDP library is outside: a format of the offer is its payload type as strconv.ParseUint reads it,
-- if it does, and `codec` is what GetCodecForPayloadType answers, the name of the codec if it knows it.
pub mod Negotiation
pub mod Examples
use sipgate_sip_stream_bridg.Prelude.{
  ℕ, String, Bool, true, false, Option, none, some, List, [], ◌∷◌, ◌++◌, ◌==◌, ◌&&◌, ◌||◌, str_eq,
  if◌then◌else◌, map, replicate,
}
use sipgate_sip_stream_bridg.Prelude.Text.{Text, codes}
use sipgate_sip_stream_bridg.Webhook.Ssrf.{equal_fold}

-- The part of CallerSDP that the answer depends on.
pub record CallerSdp : Type 0 where
  pub dtmf_payload_type : ℕ
  pub audio_payload_types : List ℕ
  pub is_srtp : Bool

-- The loop of ParseCallerSDP over the formats.
abbrev pub add_format : Option Text → ℕ → ℕ × List ℕ → ℕ × List ℕ
add_format none pt (dtmf, audio) = (dtmf, audio)
add_format (some name) pt (dtmf, audio) =
    if equal_fold name (codes "telephone-event") then (pt, audio) else (dtmf, audio ++ pt ∷ [])

unfoldable pub scan_formats : (ℕ → Option Text) → List (Option ℕ) → ℕ × List ℕ → ℕ × List ℕ
scan_formats codec [] acc = acc
scan_formats codec (none ∷ fs) acc = scan_formats codec fs acc
scan_formats codec (some pt ∷ fs) acc = scan_formats codec fs (add_format (codec pt) pt acc)

-- The fallback of the telephone-event is 101.
unfoldable pub caller_formats : (ℕ → Option Text) → List (Option ℕ) → ℕ × List ℕ
caller_formats codec fs = scan_formats codec fs (101, [])

pub record CodecEntry : Type 0 where
  pub pt : ℕ
  pub name : String

-- The inner loop over the offered payload types.
unfoldable pub is_offered : List ℕ → ℕ → Bool
is_offered [] pt = false
is_offered (offered ∷ pts) pt = if offered == pt then true else is_offered pts pt

unfoldable pub keep_offered : List ℕ → List CodecEntry → List CodecEntry
keep_offered pts [] = []
keep_offered pts (c ∷ cs) =
    let rest = keep_offered pts cs in if is_offered pts c.pt then c ∷ rest else rest

abbrev pub pcmu : CodecEntry
pcmu = record { pt = 0; name = "PCMU" }

abbrev pub preferred : List CodecEntry
preferred = record { pt = 9; name = "G722" } ∷ record { pt = 8; name = "PCMA" } ∷ pcmu ∷ []

-- The codecs that BuildSDPAnswer advertises.
unfoldable pub answer_codecs : String → CallerSdp → List CodecEntry
answer_codecs mode caller =
    if str_eq mode "best" then keep_offered caller.audio_payload_types preferred else pcmu ∷ []

abbrev pub first_pt : List CodecEntry → ℕ
first_pt [] = 0
first_pt (c ∷ cs) = c.pt

unfoldable pub negotiated_pt : String → CallerSdp → ℕ
negotiated_pt mode caller = first_pt (answer_codecs mode caller)

unfoldable pub answer_formats : String → CallerSdp → List ℕ
answer_formats mode caller =
    map (λ (c : CodecEntry). c.pt) (answer_codecs mode caller) ++ caller.dtmf_payload_type ∷ []

unfoldable pub use_srtp : Bool → CallerSdp → Bool
use_srtp enabled caller = enabled && caller.is_srtp

-- SilenceFrameForPT and MediaFormatForPT.
unfoldable pub silence_frame_for_pt : ℕ → List ℕ
silence_frame_for_pt pt = replicate 160 (if pt == 9 then 0 else if pt == 8 then 213 else 255)

unfoldable pub media_format_for_pt : ℕ → String × ℕ
media_format_for_pt pt =
    if pt == 9
    then ("audio/G722", 16_000)
    else if pt == 8
    then ("audio/x-alaw", 8_000)
    else ("audio/x-mulaw", 8_000)
