-- ===== src/Bridge/Media/Clear.antt =====
-- The clear event of session.go, from wsToRTP to the next tick of rtpPacer.
use sipgate_sip_stream_bridg.Prelude.{ℕ, ◌≡◌, refl, false, List, [], ◌∷◌, ◌++◌}
use sipgate_sip_stream_bridg.Bridge.Media.{
  Media, RtpOut, sent, tick, send_frame, send_rtp, advance, drain_queue, echo_marks, on_media,
  on_clear,
}

-- The packet of a gap.
abbrev pub silence_of : Media → RtpOut
silence_of m = record {
  sequence_number = m.seq_no;
  timestamp = m.timestamp;
  payload = m.silence_frame;
}

-- The tick after a clear empties the queue of the pacer, hands its marks on to be echoed in their
-- order, sends silence in that tick and forgets the clear.
pub clear_lem :
    (m : Media)
    → m.pacer_done ≡ false
    → let t = tick sent (on_clear m) in
      (t.packet_queue ≡ [])
      × (t.mark_echo_queue ≡ echo_marks m.packet_queue m.mark_echo_queue)
      × (t.rtp_sent ≡ m.rtp_sent ++ silence_of m ∷ [])
      × (t.clear_signal ≡ false)
unfolding tick on_clear drain_queue send_frame send_rtp advance
clear_lem m h = rw h (refl, refl, refl, refl)

-- Audio that arrives after a clear and before the next tick is lost with the cleared one: the tick
-- empties the queue of it and sends silence.
clear-on_media :
    (payload : List ℕ) (m : Media)
    → m.pacer_done ≡ false
    → let t = tick sent (on_media payload (on_clear m)) in
      (t.packet_queue ≡ []) × (t.rtp_sent ≡ m.rtp_sent ++ silence_of m ∷ [])
unfolding tick on_media on_clear drain_queue send_frame send_rtp advance
clear-on_media payload m h = rw h (refl, refl)
