-- ===== src/Bridge/Leg/Sdp.antt =====
-- go/internal/bridge/leg.go, BuildSDPOffer and AcceptSDPAnswer of a callee leg. The SDP library is
-- outside, and whether it leaves the Address of a `c=` line nil is its own matter; the code then panics,
-- which is the outcome `nil_address`, and no error that it returns. `marshal` writes an offer, `unmarshal` reads an answer; a format is its payload type as
-- strconv.ParseUint reads it, if it does, and a port that is not above 0 is 0. Of an error its place in
-- the code is kept.
pub mod Accepted
use sipgate_sip_stream_bridg.Prelude.{
  ℕ, String, Bool, true, false, Option, none, some, List, [], ◌∷◌, ◌++◌, ◌⊎◌, inl, inr, ◌==◌,
  str_eq, if◌then◌else◌,
}
use sipgate_sip_stream_bridg.Prelude.Text.{Text, codes}
use sipgate_sip_stream_bridg.Webhook.Ssrf.{equal_fold}
use sipgate_sip_stream_bridg.Bridge.Leg.{Leg, pcmu_silence_frame}

pub data SdpError : Type 0 where
  no_contact_ip no_rtp_port marshal_failed : SdpError
  unmarshal_failed nil_address no_address bad_port no_audio_format no_audio_section : SdpError
  codec_mismatch : ℕ → SdpError

-- What the offer says of the leg; its formats are 0 and 101.
pub record Offer : Type 0 where
  pub session_id : ℕ
  pub unicast_address : String
  pub port : ℕ
  pub formats : List ℕ

unfoldable pub build_sdp_offer :
    (Offer → Option (List ℕ)) → ℕ → Leg → Leg × (SdpError ⊎ (List ℕ × ℕ))
build_sdp_offer marshal now l =
    let written = marshal (record {
      session_id = now;
      unicast_address = l.contact_ip;
      port = l.rtp_port;
      formats = 0 ∷ 101 ∷ [];
    }) in
    if str_eq l.contact_ip ""
    then (l, inl no_contact_ip)
    else if l.rtp_port == 0
    then (l, inl no_rtp_port)
    else elim written [
      | none ↦ (l, inl marshal_failed)
      | some out ↦ (record l { sdp_offer = some out }, inr (out, l.rtp_port))
    ]

-- A ConnectionInformation is the address in it, which may be nil.
pub record MediaSection : Type 0 where
  pub media : String
  pub connection : Option (Option String)
  pub port : ℕ
  pub formats : List (Option ℕ)

-- `codec` is the name that GetCodecForPayloadType finds.
pub record Description : Type 0 where
  pub connection : Option (Option String)
  pub sections : List MediaSection
  pub codec : ℕ → Option Text

-- none is the nil dereference.
unfoldable pub address_of : Description → MediaSection → Option String
address_of d m = elim m.connection [
  | some ip ↦ ip
  | none ↦ elim d.connection [ some ip ↦ ip | none ↦ some "" ]
]

-- One format; without an rtpmap only 0 is known.
unfoldable pub add_answered : Option Text → ℕ → ℕ × List ℕ → ℕ × List ℕ
add_answered none pt (dtmf, audio) = (dtmf, if pt == 0 then audio ++ pt ∷ [] else audio)
add_answered (some name) pt (dtmf, audio) =
    if equal_fold name (codes "telephone-event") then (pt, audio) else (dtmf, audio ++ pt ∷ [])

-- The loop over the formats: the telephone-event and the audio.
unfoldable pub split_formats : (ℕ → Option Text) → List (Option ℕ) → ℕ × List ℕ → ℕ × List ℕ
unfolding add_answered
split_formats codec [] acc = acc
split_formats codec (none ∷ fs) acc = split_formats codec fs acc
split_formats codec (some pt ∷ fs) acc = split_formats codec fs (add_answered (codec pt) pt acc)

unfoldable pub commit : List ℕ → String → ℕ → ℕ × List ℕ → Leg → Leg × Option SdpError
commit answer ip port (dtmf, []) l = (l, some no_audio_format)
commit answer ip port (dtmf, pt ∷ pts) l =
    if pt == 0
    then (
      record l {
        sdp_answer = some answer;
        remote_rtp = some (record { ip = ip; port = port });
        audio_pt = 0;
        dtmf_pt = dtmf;
        silence_frame = some pcmu_silence_frame;
        media_encoding = "audio/x-mulaw";
        media_sample_rate = 8_000;
      },
      none,
    )
    else (l, some (codec_mismatch pt))

unfoldable pub accept_at :
    List ℕ → Description → MediaSection → Option String → Leg → Leg × Option SdpError
unfolding split_formats commit
accept_at answer d m none l = (l, some nil_address)
accept_at answer d m (some ip) l =
    if str_eq ip ""
    then (l, some no_address)
    else if m.port == 0
    then (l, some bad_port)
    else commit answer ip m.port (split_formats d.codec m.formats (101, [])) l

-- The first audio section.
unfoldable pub accept_section : List ℕ → Description → MediaSection → Leg → Leg × Option SdpError
unfolding address_of accept_at
accept_section answer d m l = accept_at answer d m (address_of d m) l

unfoldable pub accept_sections :
    List ℕ → Description → List MediaSection → Leg → Leg × Option SdpError
unfolding accept_section
accept_sections answer d [] l = (l, some no_audio_section)
accept_sections answer d (m ∷ ms) l =
    let rest = accept_sections answer d ms l in
    if str_eq m.media "audio" then accept_section answer d m l else rest

unfoldable pub accept_parsed : List ℕ → Option Description → Leg → Leg × Option SdpError
unfolding accept_sections
accept_parsed answer none l = (l, some unmarshal_failed)
accept_parsed answer (some d) l = accept_sections answer d d.sections l

unfoldable pub accept_sdp_answer :
    (List ℕ → Option Description) → List ℕ → Leg → Leg × Option SdpError
unfolding accept_parsed
accept_sdp_answer unmarshal answer l = accept_parsed answer (unmarshal answer) l
