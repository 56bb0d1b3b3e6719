-- ===== src/Bridge/Leg.antt =====
-- go/internal/bridge/leg.go: one SIP dialog with its RTP side, and the BYE that it sends at most once.
-- A queue is a channel: the frames in it, the oldest first; `none` is the nil channel.
pub mod Queue
pub mod Examples
pub mod Sdp
use sipgate_sip_stream_bridg.Prelude.{
  ℕ, String, Bool, true, false, Option, none, some, List, [], ◌∷◌, ◌++◌, ltb, if◌then◌else◌, length,
  replicate,
}

-- outboundFrame of session.go: exactly one of the two.
pub data Frame : Type 0 where
  audio : List ℕ → Frame
  mark : String → Frame

pub record Addr : Type 0 where
  pub ip : String
  pub port : ℕ

pub record Leg : Type 0 where
  -- The dialog that a BYE goes to, by a number; a callee leg has none.
  pub dialog : Option ℕ
  pub terminate_once : Bool
  pub has_session : Bool
  pub is_outbound : Bool
  pub contact_ip : String
  pub rtp_port : ℕ
  pub remote_rtp : Option Addr
  pub dtmf_pt : ℕ
  pub audio_pt : ℕ
  pub silence_frame : Option (List ℕ)
  pub media_encoding : String
  pub media_sample_rate : ℕ
  pub last_dtmf_ts : ℕ
  pub packet_queue : Option (List Frame)
  pub rtp_inbound_queue : Option (List (List ℕ))
  pub outbound_queue : Option (List Frame)
  pub sdp_answer : Option (List ℕ)
  pub sdp_offer : Option (List ℕ)

abbrev pub packet_queue_size : ℕ
packet_queue_size = 500

abbrev pub rtp_inbound_queue_size : ℕ
rtp_inbound_queue_size = 50

unfoldable pub pcmu_silence_frame : List ℕ
pcmu_silence_frame = replicate 160 255

-- NewCalleeLeg of session.go; what its literal leaves out is Go's zero value.
unfoldable pub new_callee_leg : ℕ → String → Leg
new_callee_leg rtp_port contact_ip = record {
  dialog = none;
  terminate_once = false;
  has_session = false;
  is_outbound = true;
  contact_ip = contact_ip;
  rtp_port = rtp_port;
  remote_rtp = none;
  dtmf_pt = 0;
  audio_pt = 0;
  silence_frame = none;
  media_encoding = "";
  media_sample_rate = 0;
  last_dtmf_ts = 0;
  packet_queue = none;
  rtp_inbound_queue = none;
  outbound_queue = some [];
  sdp_answer = none;
  sdp_offer = none;
}

abbrev pub dialog_list : Option ℕ → List ℕ
dialog_list none = []
dialog_list (some d) = d ∷ []

-- bye: the leg, and the dialogs that a BYE was sent to. Only tests set `byeFunc`.
unfoldable pub bye : Leg → Leg × List ℕ
bye l =
    if l.terminate_once then (l, []) else (record l { terminate_once = true }, dialog_list l.dialog)
