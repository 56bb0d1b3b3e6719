-- ===== src/Bridge/Media/Examples.antt =====
-- Tests of the media goroutines of go/internal/bridge/session.go.
use sipgate_sip_stream_bridg.Prelude.{
  ◌+◌, ◌*◌, ◌%◌, ◌≤◌, ◌≡◌, inl, inr, refl, true, false, none, List, [], ◌∷◌, arith, length,
}
use sipgate_sip_stream_bridg.Bridge.State.{streaming}
use sipgate_sip_stream_bridg.Bridge.Media.{Media, sent, encrypt_failed}
use sipgate_sip_stream_bridg.Bridge.Media.Pacing.{ticks, ticks_lem}
use sipgate_sip_stream_bridg.Bridge.Media.Turns.{
  Op, receives_media, receives_mark, receives_clear, writes_mark, run,
}
use sipgate_sip_stream_bridg.Bridge.Media.Turns
use sipgate_sip_stream_bridg.Bridge.Media.Sequence.{IsCounted, numbers_gapless}

-- The media of a call that has just started.
abbrev pub fresh : Media
fresh = record {
  state = streaming;
  audio_pt = 0;
  dtmf_pt = 113;
  silence_frame = 255 ∷ [];
  last_dtmf_ts = 0;
  packet_queue = [];
  rtp_inbound_queue = [];
  peer_queue = none;
  dtmf_queue = [];
  mark_echo_queue = [];
  clear_signal = false;
  seq_no = 65535;
  timestamp = 0;
  rtp_sent = [];
  pacer_done = false;
  ws_seq_no = 2;
  ws_sent = [];
  ws_done = false;
}

-- Audio with a mark behind it, a clear with another mark, a tick and an echo.
abbrev interrupted : List Op
interrupted =
    receives_media (1 ∷ 2 ∷ [])
    ∷ receives_mark "a"
    ∷ receives_clear
    ∷ receives_mark "b"
    ∷ Turns.ticks sent
    ∷ writes_mark true
    ∷ []

numbers_gapless_example : IsCounted (run interrupted fresh)
numbers_gapless_example = numbers_gapless interrupted fresh (tt, refl)

ticks_example :
    let t = ticks (sent ∷ encrypt_failed ∷ []) fresh in
    (t.seq_no ≡ (65535 + 2) % 65536)
    × (t.timestamp ≡ (0 + 160 * 2) % 4294967296)
    × (t.pacer_done ≡ false)
    × (length t.rtp_sent ≤ 0 + 2)
ticks_example =
    ticks_lem (sent ∷ encrypt_failed ∷ []) fresh (inl refl, (inr refl, tt))
      (refl, omega arith, omega arith)
