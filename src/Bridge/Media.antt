-- ===== src/Bridge/Media.antt =====
-- go/internal/bridge/session.go: the goroutines of the caller's leg that carry media, rtpReader,
-- wsPacer, wsToRTP and rtpPacer, and what they share. One turn of a goroutine's loop is one step. A
-- channel is the list of what it holds. Decryption, the RTP and JSON codecs and the sockets are
-- outside: a step gets the decoded packet or message, and whether its write succeeded. A byte of a
-- payload is a number below 256.
pub mod Frames
pub mod Pacing
pub mod Turns
pub mod Clear
pub mod Sequence
pub mod Relay
pub mod Examples
use sipgate_sip_stream_bridg.Prelude.{
  ℕ, zero, suc, ◌+◌, ◌%◌, ◌^◌, String, Bool, true, false, Option, none, some, List, [], ◌∷◌, ◌++◌,
  ltb, leb, ◌==◌, ◌&&◌, ◌||◌, not, str_eq, if◌then◌else◌, length, take, drop, get_elem?,
}
use sipgate_sip_stream_bridg.Bridge.State.{State, forwarding, dialing_out, state_eq}
use sipgate_sip_stream_bridg.Bridge.Leg.{
  Frame, audio, mark, packet_queue_size, rtp_inbound_queue_size,
}
use sipgate_sip_stream_bridg.Bridge.Leg.Queue.{offer}

abbrev pub dtmf_queue_size : ℕ
dtmf_queue_size = 10

abbrev pub mark_echo_queue_size : ℕ
mark_echo_queue_size = 10

-- What rtpPacer puts in a packet.
pub record RtpOut : Type 0 where
  pub sequence_number : ℕ
  pub timestamp : ℕ
  pub payload : List ℕ

-- What wsPacer writes, with its sequence number.
pub data WsOut : Type 0 where
  dtmf_event : ℕ → String → WsOut
  mark_event : ℕ → String → WsOut
  media_event : ℕ → List ℕ → WsOut

pub record Media : Type 0 where
  pub state : State
  pub audio_pt : ℕ
  pub dtmf_pt : ℕ
  pub silence_frame : List ℕ
  pub last_dtmf_ts : ℕ
  pub packet_queue : List Frame
  pub rtp_inbound_queue : List (List ℕ)
  -- The peer's outboundQueue; none without a peer or with a nil channel.
  pub peer_queue : Option (List Frame)
  pub dtmf_queue : List String
  pub mark_echo_queue : List String
  pub clear_signal : Bool
  -- rtpPacer: its counters and what it has sent.
  pub seq_no : ℕ
  pub timestamp : ℕ
  pub rtp_sent : List RtpOut
  pub pacer_done : Bool
  -- wsPacer.
  pub ws_seq_no : ℕ
  pub ws_sent : List WsOut
  pub ws_done : Bool

-- parseTelephoneEvent of ws.go: the digit and whether the packet is an End.
abbrev dtmf_digits : List String
dtmf_digits =
    "0" ∷ "1" ∷ "2" ∷ "3" ∷ "4" ∷ "5" ∷ "6" ∷ "7" ∷ "8" ∷ "9" ∷ "*" ∷ "#" ∷ "A" ∷ "B" ∷ "C" ∷ "D"
    ∷ []

unfoldable pub parse_telephone_event : List ℕ → Option (String × Bool)
parse_telephone_event (code ∷ flags ∷ d1 ∷ d2 ∷ rest) = elim (get_elem? dtmf_digits code) [
  | none ↦ none
  | some digit ↦ some (digit, leb 128 flags)
]
parse_telephone_event _ = none

-- rtpReader from the decoded packet on: the telephone event, then the audio.
abbrev pub on_digit : ℕ → Option (String × Bool) → Media → Media
on_digit ts none m = m
on_digit ts (some (digit, false)) m = m
on_digit ts (some (digit, true)) m =
    if ts == m.last_dtmf_ts
    then m
    else record m { last_dtmf_ts = ts; dtmf_queue = offer dtmf_queue_size digit m.dtmf_queue }

abbrev pub relay : List ℕ → Option (List Frame) → Option (List Frame)
relay payload none = none
relay payload (some q) = some (offer packet_queue_size (audio payload) q)

-- The phase is loaded twice, and other goroutines may swap it in between: `again` is the second load.
unfoldable pub on_audio : List ℕ → State → Media → Media
on_audio payload again m =
    if state_eq m.state forwarding
    then record m { peer_queue = relay payload m.peer_queue }
    else if state_eq again dialing_out
    then m
    else record m { rtp_inbound_queue = offer rtp_inbound_queue_size payload m.rtp_inbound_queue }

unfoldable pub on_packet : ℕ → ℕ → List ℕ → State → Media → Media
on_packet pt ts payload again m =
    if pt == m.dtmf_pt
    then on_digit ts (parse_telephone_event payload) m
    else if pt == m.audio_pt
    then on_audio payload again m
    else m

-- The loop of wsToRTP that cuts a payload into frames; each turn takes a byte or more, so that the
-- length of the payload is fuel enough.
abbrev pub rtp_frame_size : ℕ
rtp_frame_size = 160

unfoldable pub cut : ℕ → List ℕ → List (List ℕ)
cut zero p = []
cut (suc n) [] = []
cut (suc n) (b ∷ p) = take rtp_frame_size (b ∷ p) ∷ cut n (drop rtp_frame_size (b ∷ p))

unfoldable pub frames : List ℕ → List (List ℕ)
frames p = cut (length p) p

unfoldable pub offer_frames : List (List ℕ) → List Frame → List Frame
offer_frames [] q = q
offer_frames (f ∷ fs) q = offer_frames fs (offer packet_queue_size (audio f) q)

-- The cases of wsToRTP.
unfoldable pub on_media : List ℕ → Media → Media
on_media payload m = record m { packet_queue = offer_frames (frames payload) m.packet_queue }

-- A sentinel is told from audio by its name, which is not "". With the name "" the frame has neither,
-- and the pacer takes it for a gap.
abbrev pub put_mark : String → List Frame → Media → Media
put_mark name [] m = record m {
  mark_echo_queue = offer mark_echo_queue_size name m.mark_echo_queue;
}
put_mark name (f ∷ fs) m = record m { packet_queue = offer packet_queue_size (mark name) (f ∷ fs) }

unfoldable pub on_mark : String → Media → Media
on_mark name m = put_mark name m.packet_queue m

unfoldable pub on_clear : Media → Media
on_clear m = record m { clear_signal = true }

-- The drain of rtpPacer: the marks of the queue go to the echo queue. The code takes a frame from one
-- channel and then sends its mark to the other; wsToRTP may run in between, which one step does not
-- show.
unfoldable pub echo_marks : List Frame → List String → List String
echo_marks [] q = q
echo_marks (audio p ∷ fs) q = echo_marks fs q
echo_marks (mark name ∷ fs) q =
    echo_marks fs (if str_eq name "" then q else offer mark_echo_queue_size name q)

unfoldable pub drain_queue : Media → Media
drain_queue m =
    if m.clear_signal
    then record m {
      clear_signal = false;
      packet_queue = [];
      mark_echo_queue = echo_marks m.packet_queue m.mark_echo_queue;
    }
    else m

-- What becomes of a packet on its way out.
pub data Outcome : Type 0 where
  sent marshal_failed encrypt_failed write_failed : Outcome

unfoldable pub advance : Media → Media
advance m = record m { seq_no = (m.seq_no + 1) % 2 ^ 16; timestamp = (m.timestamp + 160) % 2 ^ 32 }

unfoldable pub send_rtp : Outcome → List ℕ → Media → Media
send_rtp sent payload m = advance (record m {
  rtp_sent =
      m.rtp_sent
      ++ record { sequence_number = m.seq_no; timestamp = m.timestamp; payload = payload } ∷ [];
})
send_rtp marshal_failed payload m = m
send_rtp encrypt_failed payload m = advance m
send_rtp write_failed payload m = record m { pacer_done = true }

-- The frame of a tick. An empty payload never reaches the queue from wsToRTP; from a peer it is not
-- nil and is sent as it is.
unfoldable pub send_frame : Outcome → List Frame → Media → Media
send_frame out [] m = send_rtp out m.silence_frame m
send_frame out (audio p ∷ fs) m = send_rtp out p (record m { packet_queue = fs })
send_frame out (mark name ∷ fs) m =
    if str_eq name ""
    then send_rtp out m.silence_frame (record m { packet_queue = fs })
    else advance (record m {
      packet_queue = fs;
      mark_echo_queue = offer mark_echo_queue_size name m.mark_echo_queue;
    })

-- A tick of rtpPacer, with its two channel operations on a mark as one step.
unfoldable pub tick : Outcome → Media → Media
tick out m = let d = drain_queue m in if m.pacer_done then m else send_frame out d.packet_queue d

-- The cases of wsPacer, each with whether its write succeeds. Go picks among the ready ones.
unfoldable pub ws_write : Bool → (ℕ → WsOut) → Media → Media
ws_write ok event m =
    if ok
    then record m {
      ws_sent = m.ws_sent ++ event m.ws_seq_no ∷ [];
      ws_seq_no = (m.ws_seq_no + 1) % 2 ^ 32;
    }
    else record m { ws_done = true }

abbrev pub write_digit : Bool → List String → Media → Media
write_digit ok [] m = m
write_digit ok (d ∷ ds) m = ws_write ok (λ n. dtmf_event n d) (record m { dtmf_queue = ds })

abbrev pub write_mark : Bool → List String → Media → Media
write_mark ok [] m = m
write_mark ok (k ∷ ks) m = ws_write ok (λ n. mark_event n k) (record m { mark_echo_queue = ks })

abbrev pub write_media : Bool → List (List ℕ) → Media → Media
write_media ok [] m = m
write_media ok (p ∷ ps) m = ws_write ok (λ n. media_event n p) (record m { rtp_inbound_queue = ps })

unfoldable pub ws_digit : Bool → Media → Media
ws_digit ok m = if m.ws_done then m else write_digit ok m.dtmf_queue m

unfoldable pub ws_mark : Bool → Media → Media
ws_mark ok m = if m.ws_done then m else write_mark ok m.mark_echo_queue m

unfoldable pub ws_tick : Bool → Media → Media
ws_tick ok m = if m.ws_done then m else write_media ok m.rtp_inbound_queue m
