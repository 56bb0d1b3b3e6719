-- ===== src/Bridge/Media/Relay.antt =====
-- go/internal/bridge/session.go: calleeRtpReader and calleeRtpPacer, one turn of a loop a step. The
-- callee's outboundQueue is the peer's queue of the caller's media. The codec and the socket are
-- outside: a step gets the decoded packet, or whether the packet was built and written.
pub mod Heard
pub mod InOrder
pub mod Examples
use sipgate_sip_stream_bridg.Prelude.{
  ℕ, ◌+◌, ◌%◌, ◌^◌, Bool, true, false, Option, none, some, List, [], ◌∷◌, ◌++◌, ◌==◌, if◌then◌else◌,
}
use sipgate_sip_stream_bridg.Bridge.Leg.{Frame, audio, mark, packet_queue_size}
use sipgate_sip_stream_bridg.Bridge.Leg.Queue.{offer}
use sipgate_sip_stream_bridg.Bridge.Media.{Media, RtpOut}

-- What the goroutines read of the callee's leg, with the silence that calleeRtpPacer falls back to.
pub record Callee : Type 0 where
  pub audio_pt : ℕ
  pub silence_frame : List ℕ
  pub has_remote : Bool

pub data Written : Type 0 where
  written not_built not_written : Written

-- The caller's media, and the counters of calleeRtpPacer with what it has sent.
pub record Bridged : Type 0 where
  pub media : Media
  pub seq_no : ℕ
  pub timestamp : ℕ
  pub rtp_sent : List RtpOut
  pub pacer_done : Bool

unfoldable pub next_packet : Bridged → Bridged
next_packet b = record b {
  seq_no = (b.seq_no + 1) % 2 ^ 16;
  timestamp = (b.timestamp + 160) % 2 ^ 32;
}

unfoldable pub write_packet : List ℕ → Bridged → Bridged
write_packet chunk b = record b {
  rtp_sent =
      b.rtp_sent
      ++ record { sequence_number = b.seq_no; timestamp = b.timestamp; payload = chunk } ∷ [];
}

-- The packet of a tick.
unfoldable pub forward_chunk : Bool → Written → List ℕ → Bridged → Bridged
unfolding next_packet write_packet
forward_chunk has_remote not_built chunk b = next_packet b
forward_chunk false written chunk b = next_packet b
forward_chunk false not_written chunk b = next_packet b
forward_chunk true written chunk b = next_packet (write_packet chunk b)
forward_chunk true not_written chunk b = record b { pacer_done = true }

-- What the tick takes from the queue; a frame without audio gives silence.
unfoldable pub take_chunk : List ℕ → Option (List Frame) → List ℕ × Option (List Frame)
take_chunk silence none = (silence, none)
take_chunk silence (some []) = (silence, some [])
take_chunk silence (some (audio p ∷ fs)) = (p, some fs)
take_chunk silence (some (mark name ∷ fs)) = (silence, some fs)

module _ (c : Callee) where
  unfoldable pub callee_packet : ℕ → List ℕ → Bridged → Bridged
  callee_packet pt payload b =
      if pt == c.audio_pt
      then record b {
        media = record b.media {
          packet_queue = offer packet_queue_size (audio payload) b.media.packet_queue;
        };
      }
      else b

  unfoldable pub callee_tick : Written → Bridged → Bridged
  unfolding forward_chunk take_chunk
  callee_tick out b =
      let (chunk, rest) = take_chunk c.silence_frame b.media.peer_queue in
      if b.pacer_done
      then b
      else forward_chunk c.has_remote out chunk
          (record b { media = record b.media { peer_queue = rest } })
