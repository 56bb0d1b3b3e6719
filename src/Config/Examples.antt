-- ===== src/Config/Examples.antt =====
-- Tests of go/internal/config/config.go.
use sipgate_sip_stream_bridg.Prelude.{◌≡◌, refl, Option, none, some, List, [], ◌∷◌, inr}
use sipgate_sip_stream_bridg.Prelude.Text.{Text, codes}
use sipgate_sip_stream_bridg.Prelude.Int.{pos}
use sipgate_sip_stream_bridg.Config.{Config, load_config}
use sipgate_sip_stream_bridg.Config.Loaded.{Valid, load_config-Valid}

abbrev split : Text → Option (Text × Text)
split addr = some (codes "0.0.0.0", codes "5060")

abbrev prefixed : List Text → Config
prefixed prefixes = record {
  sip_listen_addr = codes "0.0.0.0:5060";
  sip_outbound_target_port = pos 0;
  status_callback_default_url = [];
  status_callback_default_method = codes "POST";
  status_callback_default_events = [];
  ws_target_url = codes "wss://example.com/";
  voice_url = [];
  voice_method = codes "POST";
  voice_fallback_url = [];
  voice_fallback_method = codes "POST";
  voice_timeout_s = pos 5;
  sdp_contact_ip = codes "10.0.0.1";
  rtp_port_min = pos 10_000;
  rtp_port_max = pos 10_099;
  audio_mode = codes "twilio";
  dial_allowed_prefixes = prefixes;
  dial_ring_timeout_s = pos 30;
  dial_max_per_session = pos 3;
  dial_max_per_minute = pos 60;
}

loads :
    load_config split none (prefixed (codes " +49 " ∷ [] ∷ [])) ≡ inr (prefixed (codes "+49" ∷ []))
unfolding load_config
loads = refl

load_config-Valid_example : Valid split (prefixed (codes "+49" ∷ []))
load_config-Valid_example =
    load_config-Valid split none (prefixed (codes " +49 " ∷ [] ∷ [])) (prefixed (codes "+49" ∷ []))
      loads

-- A "+" alone is let through, which the message of the exit rules out.
plus_alone : load_config split none (prefixed (codes "+" ∷ [])) ≡ inr (prefixed (codes "+" ∷ []))
unfolding load_config
plus_alone = refl
