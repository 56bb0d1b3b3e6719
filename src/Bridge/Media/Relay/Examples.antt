-- ===== src/Bridge/Media/Relay/Examples.antt =====
-- Tests of the relay of go/internal/bridge/session.go.
use sipgate_sip_stream_bridg.Prelude.{true, false, some, List, [], ◌∷◌, ◌++◌}
use sipgate_sip_stream_bridg.Prelude.Subsequence.{Subsequence}
use sipgate_sip_stream_bridg.Bridge.State.{forwarding}
use sipgate_sip_stream_bridg.Bridge.Media.Examples.{fresh}
use sipgate_sip_stream_bridg.Bridge.Media.Relay.{Callee, Bridged, written}
use sipgate_sip_stream_bridg.Bridge.Media.Relay.Heard.{heard, relayed}
use sipgate_sip_stream_bridg.Bridge.Media.Relay.InOrder.{
  Op, caller_sends, ticks, enters, run, arrivals, relay_in_order,
}

abbrev callee : Callee
callee = record { audio_pt = 0; silence_frame = 255 ∷ []; has_remote = true }

abbrev answered_call : Bridged
answered_call = record {
  media = record fresh { peer_queue = some [] };
  seq_no = 0;
  timestamp = 0;
  rtp_sent = [];
  pacer_done = false;
}

abbrev talk : List Op
talk =
    enters forwarding
    ∷ caller_sends 0 160 (1 ∷ 2 ∷ []) forwarding
    ∷ ticks written
    ∷ caller_sends 0 320 (3 ∷ 4 ∷ []) forwarding
    ∷ ticks written
    ∷ ticks written
    ∷ []

relay_in_order_example :
    Subsequence
      (relayed callee (run callee talk answered_call))
      (relayed callee answered_call ++ heard (255 ∷ []) (arrivals talk))
relay_in_order_example = relay_in_order callee talk answered_call
