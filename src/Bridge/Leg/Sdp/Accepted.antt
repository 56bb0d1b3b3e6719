-- ===== src/Bridge/Leg/Sdp/Accepted.antt =====
-- go/internal/bridge/leg.go: which answers of the callee a leg accepts, and what it can do then.
use sipgate_sip_stream_bridg.Prelude.{
  ℕ, ◌<◌, ◌≡◌, ◌↔◌, String, Bool, true, false, Option, none, some, List, [], ◌∷◌, ◌==◌, str_eq,
  if◌then◌else◌,
}
use sipgate_sip_stream_bridg.Prelude.Text.{Text, codes}
use sipgate_sip_stream_bridg.Webhook.Ssrf.{equal_fold}
use sipgate_sip_stream_bridg.Bridge.Leg.{Leg}
use sipgate_sip_stream_bridg.Bridge.Call.Lifecycle.{can_answer}
use sipgate_sip_stream_bridg.Bridge.Leg.Sdp.{
  SdpError, nil_address, Description, MediaSection, address_of,
}

-- The audio formats: those of a known codec that is no telephone-event, and 0 without one.
abbrev pub is_audio : ℕ → Option Text → Bool
is_audio pt none = pt == 0
is_audio pt (some name) = if equal_fold name (codes "telephone-event") then false else true

abbrev pub first_audio : (ℕ → Option Text) → List (Option ℕ) → Option ℕ
first_audio codec [] = none
first_audio codec (none ∷ fs) = first_audio codec fs
first_audio codec (some pt ∷ fs) =
    let rest = first_audio codec fs in if is_audio pt (codec pt) then some pt else rest

abbrev pub first_section : List MediaSection → Option MediaSection
first_section [] = none
first_section (m ∷ ms) =
    let rest = first_section ms in if str_eq m.media "audio" then some m else rest

abbrev pub head_of : List ℕ → Option ℕ
head_of [] = none
head_of (x ∷ xs) = some x

abbrev or_first : Option ℕ → Option ℕ → Option ℕ
or_first none o = o
or_first (some x) o = some x

-- The leg and the outcome of an answer: no error exactly if `P`, a panic exactly if `N`, a leg that both
-- leave alone, and else one whose OnAnswered passes its checks.
pub record Decides (P N : Type 0) (l : Leg) (p : Leg × Option SdpError) : Type 0 where
  pub accepted : (p.1 ≡ none) ↔ P
  pub panics : (p.1 ≡ some nil_address) ↔ N
  pub kept : (e : SdpError) → p.1 ≡ some e → p.0 ≡ l
  pub ready : p.1 ≡ none → l.has_session ≡ true → 0 < l.rtp_port → can_answer p.0 ≡ true

-- The media section that decides: it has an address and a port, and its first audio format is 0.
abbrev pub Acceptable : Description → MediaSection → Type 0
Acceptable d m =
    (ip : String) × (address_of d m ≡ some ip)
    × (str_eq ip "" ≡ false)
    × (0 < m.port)
    × (first_audio d.codec m.formats ≡ some 0)

-- It has no `c=` line and the description has one without an address, or its own is without.
abbrev pub HasNilAddress : Description → MediaSection → Type 0
HasNilAddress d m = address_of d m ≡ none

-- The section at its address.
At : Description → MediaSection → Option String → Type 0
At d m o =
    (ip : String) × (o ≡ some ip)
    × (str_eq ip "" ≡ false)
    × (0 < m.port)
    × (first_audio d.codec m.formats ≡ some 0)

abbrev pub FirstOf : (Description → MediaSection → Type 0) → Description → Type 0
FirstOf P d = (m : MediaSection) × (first_section d.sections ≡ some m) × P d m

abbrev Among : (MediaSection → Type 0) → List MediaSection → Type 0
Among P ms = (m : MediaSection) × (first_section ms ≡ some m) × P m

-- An answer that parses into a description with `P`.
abbrev pub Parsed : (Description → Type 0) → Option Description → Type 0
Parsed P o = (d : Description) × (o ≡ some d) × P d
