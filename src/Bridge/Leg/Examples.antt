-- ===== src/Bridge/Leg/Examples.antt =====
-- Tests of go/internal/bridge/leg.go.
use sipgate_sip_stream_bridg.Prelude.{
  ℕ, ◌≡◌, refl, true, some, none, List, [], ◌∷◌, Option, ◌==◌, if◌then◌else◌,
}
use sipgate_sip_stream_bridg.Prelude.Text.{codes, lower}
use sipgate_sip_stream_bridg.Webhook.Ssrf.{equal_fold, fold}
use sipgate_sip_stream_bridg.Bridge.Leg.{Leg, new_callee_leg}
use sipgate_sip_stream_bridg.Bridge.Leg.Sdp.{
  MediaSection, Description, accept_sdp_answer, accept_parsed, accept_sections, accept_section,
  accept_at, address_of, split_formats, add_answered, commit,
}

abbrev voice : MediaSection
voice = record {
  media = "audio";
  connection = none;
  port = 4_000;
  formats = some 101 ∷ some 0 ∷ none ∷ [];
}

-- An answer with a video section before its audio.
abbrev described : Description
described = record {
  connection = some (some "192.0.2.1");
  sections = record voice { media = "video"; port = 0 } ∷ voice ∷ [];
  codec = λ pt. if pt == 101 then some (codes "telephone-event") else none;
}

abbrev unmarshal : List ℕ → Option Description
unmarshal answer = some described

abbrev callee : Leg
callee = record (new_callee_leg 10_000 "198.51.100.7") { has_session = true }

accepted : (accept_sdp_answer unmarshal (1 ∷ []) callee).1 ≡ none
unfolding accept_sdp_answer accept_parsed accept_sections accept_section accept_at address_of
    split_formats add_answered commit equal_fold fold lower
accepted = refl
