-- ===== src/Bridge/Call/Examples.antt =====
-- Tests of the sessions of go/internal/bridge.
use sipgate_sip_stream_bridg.Prelude.{
  ◌*◌, ◌≤◌, ◌≡◌, inl, refl, true, false, none, some, List, [], ◌∷◌, length,
}
use sipgate_sip_stream_bridg.Webhook.Subscription.{resolve_event_name}
use sipgate_sip_stream_bridg.Bridge.State.{streaming, terminated}
use sipgate_sip_stream_bridg.Bridge.Leg.{Leg, pcmu_silence_frame}
use sipgate_sip_stream_bridg.Bridge.Call.{
  CallSession, StatusCallbackConfig, CallbackEvent, status, is_active,
  twilio_status_from_term_reason, second,
}
use sipgate_sip_stream_bridg.Bridge.Call.Callback.{mark_terminated}
use sipgate_sip_stream_bridg.Bridge.Call.History.{Op, terminates, answers, ends, run}
use sipgate_sip_stream_bridg.Bridge.Call.Once.{first_end_wins}
use sipgate_sip_stream_bridg.Bridge.Call.Race.{
  Rival, closes, racing_terminate, racing_terminate_lem,
}
use sipgate_sip_stream_bridg.Bridge.Call.Race
use sipgate_sip_stream_bridg.Bridge.Call.Phases.{terminate_final}
use sipgate_sip_stream_bridg.Bridge.Call.FinalEvent.{Says, final_event_sent}

-- The caller's leg, with a dialog to end.
abbrev pub inbound : Leg
inbound = record {
  dialog = some 7;
  terminate_once = false;
  has_session = true;
  is_outbound = false;
  contact_ip = "198.51.100.1";
  rtp_port = 10000;
  remote_rtp = some (record { ip = "203.0.113.5"; port = 4000 });
  dtmf_pt = 113;
  audio_pt = 0;
  silence_frame = some pcmu_silence_frame;
  media_encoding = "audio/x-mulaw";
  media_sample_rate = 8000;
  last_dtmf_ts = 0;
  packet_queue = some [];
  rtp_inbound_queue = some [];
  outbound_queue = none;
  sdp_answer = none;
  sdp_offer = none;
}

abbrev subscription : StatusCallbackConfig
subscription = record { url = "https://example.com/cb"; method = ""; events = []; trusted = false }

-- An answered call that streams.
abbrev live_call : CallSession
live_call = record {
  call_id = "call-1";
  call_sid = "CA1";
  account_sid = "AC1";
  from = "+491";
  to = "+492";
  start_time = 1 * second;
  terminal = none;
  status_callback = some subscription;
  seq_counter = 3;
  answered_at = some (2 * second);
  sip_final_code = 200;
  ever_emitted = true;
  has_status_client = true;
  enqueued = [];
  drained = [];
  state = streaming;
  legs = some inbound ∷ [];
  byes = [];
  session_cancelled = false;
  ws_cancelled = false;
  running = true;
  ws_actions = [];
  stream_closed = false;
  stop_reason = "";
  close_stream_once = false;
  terminate_once = false;
}

-- The rest of a call that is terminated and then ends by itself.
abbrev rest : List Op
rest = terminates "canceled" (9 * second) ∷ ends (10 * second) ∷ []

first_end_wins_example :
    let t = run (terminates "busy" (8 * second) ∷ rest) live_call in
    (t.terminal ≡ some (record { end_time = 8 * second; term_reason = "busy" }))
    × (status t ≡ twilio_status_from_term_reason "busy")
    × (length t.enqueued ≤ 1)
    × (t.drained ≡ "CA1" ∷ [])
first_end_wins_example =
    first_end_wins live_call (terminates "busy" (8 * second)) "busy" (8 * second) rest refl refl

racing_terminate_example :
    racing_terminate [] (closes ∷ []) (Race.answers ∷ []) [] streaming ≡ terminated
racing_terminate_example =
    racing_terminate_lem [] (closes ∷ []) (Race.answers ∷ []) [] streaming (inl refl)

terminate_final_example :
    ((run (terminates "busy" (8 * second) ∷ answers inbound true ∷ rest) live_call).state
      ≡ terminated)
    × (is_active (run (terminates "busy" (8 * second) ∷ answers inbound true ∷ rest) live_call)
        ≡ false)
terminate_final_example =
    terminate_final "busy" (8 * second) (answers inbound true ∷ rest) live_call (inl refl)

busy_resolves : resolve_event_name [] (twilio_status_from_term_reason "busy") ≡ some "busy"
unfolding resolve_event_name twilio_status_from_term_reason
busy_resolves = refl

final_event_sent_example :
    (evt : CallbackEvent) × ((mark_terminated "busy" (8 * second) live_call).enqueued ≡ evt ∷ [])
    × (evt.url ≡ "https://example.com/cb")
    × (evt.method ≡ "POST")
    × (evt.event ≡ "busy")
    × (evt.trusted ≡ false)
    × Says live_call "busy" (8 * second) evt
final_event_sent_example =
    final_event_sent live_call subscription "busy" "busy" (8 * second) refl refl refl busy_resolves
