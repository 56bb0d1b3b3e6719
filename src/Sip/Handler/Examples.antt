-- ===== src/Sip/Handler/Examples.antt =====
-- Tests of go/internal/sip/handler.go.
use sipgate_sip_stream_bridg.Prelude.{◌≡◌, refl, true, false, none, some, [], ◌∷◌, inl, arith}
use sipgate_sip_stream_bridg.Prelude.Text.{Text, codes}
use sipgate_sip_stream_bridg.Prelude.Dict.{load}
use sipgate_sip_stream_bridg.Webhook.Voice.{empty_url}
use sipgate_sip_stream_bridg.Bridge.Manager.Examples.{manager}
use sipgate_sip_stream_bridg.Sip.Handler.{StatusSink, on_bye, consumed, unknown_dialog}
use sipgate_sip_stream_bridg.Sip.Handler.Invite.{HandlerConfig, Invite, Desk, on_invite}
use sipgate_sip_stream_bridg.Sip.Handler.Unwound.{Left, on_invite-Left}
use sipgate_sip_stream_bridg.Twiml.Xml.{Tokens}
use sipgate_sip_stream_bridg.Twiml.Parse.Elements.{Stop, syntax_error}

abbrev silent : StatusSink (Unit {0})
silent = record { enqueue = λ sid event k. (k, true) }

abbrev decode : Text → Tokens × Stop
decode body = ([], syntax_error (codes "unexpected EOF"))

abbrev handler_config : HandlerConfig
handler_config = record {
  ws_target_url = codes "wss://example.com/stream";
  audio_mode = "twilio";
  wired = true;
}

abbrev incoming : Invite
incoming = record {
  parties = record { call_sid = "CA2"; account_sid = "AC1"; from = "+491"; to = "+492" };
  call_id = "call-2";
  start_time = 20;
  shutdown = false;
  read_fails = false;
  caller_sdp =
      some (record { dtmf_payload_type = 101; audio_payload_types = 0 ∷ []; is_srtp = false });
  respond_sdp_fails = false;
  ringing_at = 21;
  answered_at = 22;
  cleanup_at = 23;
}

abbrev desk : Desk (Unit {0})
desk = record {
  manager = manager;
  sink = tt;
  pool = record { ports = 10_000 ∷ 10_001 ∷ []; capacity = 3 };
  voice = none;
  responses = [];
}

unused_id : load incoming.call_id desk.manager.sessions ≡ none
unfolding load
unused_id = refl

unused_sid : load incoming.parties.call_sid desk.manager.call_sid_idx ≡ none
unfolding load
unused_sid = refl

on_invite-Left_example :
    Left incoming desk
      (on_invite silent decode (λ c p. (c, inl empty_url)) handler_config incoming desk)
on_invite-Left_example =
    on_invite-Left silent decode (λ c p. (c, inl empty_url)) handler_config incoming desk
      (omega arith) unused_id unused_sid

-- The second reader knows the dialog, and the third is not asked.
second_reader : on_bye (unknown_dialog ∷ consumed ∷ unknown_dialog ∷ []) ≡ (consumed, 2)
unfolding on_bye
second_reader = refl
