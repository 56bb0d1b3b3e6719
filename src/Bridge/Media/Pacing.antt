-- ===== src/Bridge/Media/Pacing.antt =====
-- The counters of rtpPacer of session.go.
use sipgate_sip_stream_bridg.Prelude.{
  ℕ, ◌+◌, ◌*◌, ◌%◌, ◌≤◌, ◌<◌, ◌≡◌, ◌⊎◌, false, List, [], ◌∷◌, arith, length, All, length-append,
  ◌∙◌,
}
use sipgate_sip_stream_bridg.Bridge.Leg.{Frame, audio, mark}
use sipgate_sip_stream_bridg.Bridge.Media.{
  Media, Outcome, sent, marshal_failed, encrypt_failed, write_failed, tick, send_frame, send_rtp,
  advance, drain_queue,
}

abbrev pub ticks : List Outcome → Media → Media
ticks [] m = m
ticks (o ∷ os) m = ticks os (tick o m)

-- The packet was built and the socket did not fail.
abbrev pub GoesOn : Outcome → Type 0
GoesOn o = (o ≡ sent) ⊎ (o ≡ encrypt_failed)

abbrev pub IsCounting : Media → Type 0
IsCounting m = (m.pacer_done ≡ false) × (m.seq_no < 65536) × (m.timestamp < 4294967296)

-- What a tick does to the counters.
record Ticked (m t : Media) : Type 0 where
  seq_no : t.seq_no ≡ (m.seq_no + 1) % 65536
  timestamp : t.timestamp ≡ (m.timestamp + 160) % 4294967296
  pacer_done : t.pacer_done ≡ m.pacer_done
  rtp_sent : length t.rtp_sent ≤ length m.rtp_sent + 1

send-Ticked : (o : Outcome) (p : List ℕ) (m : Media) → GoesOn o → Ticked m (send_rtp o p m)
unfolding send_rtp advance
send-Ticked sent p m h = ground (
  arith,
  length-append m.rtp_sent
      (record { sequence_number = m.seq_no; timestamp = m.timestamp; payload = p } ∷ []),
)
send-Ticked marshal_failed p m h = ground arith
send-Ticked encrypt_failed p m h = ground arith
send-Ticked write_failed p m h = ground arith

frame-Ticked : (o : Outcome) (fs : List Frame) (m : Media) → GoesOn o → Ticked m (send_frame o fs m)
unfolding send_frame advance
frame-Ticked o [] m h = send-Ticked o m.silence_frame m h
frame-Ticked o (audio p ∷ fs) m h =
    let k = send-Ticked o p (record m { packet_queue = fs }) h in
    record {
      seq_no = k.seq_no;
      timestamp = k.timestamp;
      pacer_done = k.pacer_done;
      rtp_sent = k.rtp_sent;
    }
frame-Ticked o (mark name ∷ fs) m h =
    let k = send-Ticked o m.silence_frame (record m { packet_queue = fs }) h in
    ground (arith, k.seq_no, k.timestamp, k.pacer_done, k.rtp_sent)

tick-Ticked : (o : Outcome) (m : Media) → GoesOn o → m.pacer_done ≡ false → Ticked m (tick o m)
unfolding tick drain_queue
tick-Ticked o m h live =
    let k = frame-Ticked o (drain_queue m).packet_queue (drain_queue m) h in
    ground (arith, k.seq_no, k.timestamp, k.pacer_done, k.rtp_sent)

-- Whatever is queued, marked or cleared, n ticks whose packets are built and whose socket does not fail
-- advance the sequence number by n modulo 2^16 and the timestamp by 160 n modulo 2^32, send at most n
-- packets, and leave the pacer going.
pub ticks_lem :
    (os : List Outcome) (m : Media)
    → All GoesOn os
    → IsCounting m
    → let t = ticks os m in
      (t.seq_no ≡ (m.seq_no + length os) % 65536)
      × (t.timestamp ≡ (m.timestamp + 160 * length os) % 4294967296)
      × (t.pacer_done ≡ false)
      × (length t.rtp_sent ≤ length m.rtp_sent + length os)
ticks_lem [] m h (live, s, t) = (omega arith, omega arith, live, omega arith)
ticks_lem (o ∷ os) m (g, gs) (live, s, t) =
    let k = tick-Ticked o m g live in
    let (a, b, c, d) =
      ticks_lem os (tick o m) gs
        (k.pacer_done ∙ live, omega (arith, k.seq_no), omega (arith, k.timestamp)) in
    (omega (arith, a, k.seq_no), omega (arith, b, k.timestamp), c, omega (arith, d, k.rtp_sent))
