-- ===== src/Bridge/Media/Sequence.antt =====
-- The sequence numbers of wsPacer of session.go.
use sipgate_sip_stream_bridg.Prelude.{
  ℕ, suc, ◌+◌, ◌%◌, ◌≡◌, refl, ◌∙◌, Bool, true, false, String, List, [], ◌∷◌, ◌++◌, arith,
  if◌then◌else◌, length, length-append,
}
use sipgate_sip_stream_bridg.Bridge.State.{State}
use sipgate_sip_stream_bridg.Bridge.Leg.{Frame, audio, mark}
use sipgate_sip_stream_bridg.Bridge.Media.{
  Media, WsOut, dtmf_event, mark_event, media_event, Outcome, sent, tick, send_frame, send_rtp,
  advance, drain_queue, on_media, on_mark, put_mark, on_clear, on_packet, on_audio, ws_write,
  write_digit, write_mark, write_media, ws_digit, ws_mark, ws_tick,
}
use sipgate_sip_stream_bridg.Bridge.Media.Turns.{
  Op, receives_media, receives_mark, receives_clear, receives_packet, ticks, writes_digit,
  writes_mark, writes_media, step, run,
}

abbrev pub number_of : WsOut → ℕ
number_of (dtmf_event n d) = n
number_of (mark_event n k) = n
number_of (media_event n p) = n

-- The numbers count up by one, modulo 2^32.
abbrev pub IsNumbered : ℕ → List WsOut → Type 0
IsNumbered n [] = Unit
IsNumbered n (e ∷ es) = (number_of e ≡ n % 4294967296) × IsNumbered (suc n) es

IsNumbered-append :
    (n : ℕ) (es : List WsOut) (e : WsOut)
    → IsNumbered n es
    → number_of e ≡ (n + length es) % 4294967296
    → IsNumbered n (es ++ e ∷ [])
IsNumbered-append n [] e h k = (omega (arith, k), tt)
IsNumbered-append n (f ∷ es) e h k = (h.0, IsNumbered-append (suc n) es e h.1 (omega (arith, k)))

abbrev pub IsCounted : Media → Type 0
IsCounted m = IsNumbered 2 m.ws_sent × (m.ws_seq_no ≡ (2 + length m.ws_sent) % 4294967296)

-- A step that writes nothing to the WebSocket.
record SameWs (m t : Media) : Type 0 where
  ws_sent : t.ws_sent ≡ m.ws_sent
  ws_seq_no : t.ws_seq_no ≡ m.ws_seq_no

IsCounted-same : (m t : Media) → SameWs m t → IsCounted m → IsCounted t
IsCounted-same m t e h = rw (e.ws_sent, e.ws_seq_no) h

-- The events that wsPacer writes carry the number that stands next.
write-IsCounted :
    (ok : Bool) (event : ℕ → WsOut) (m : Media)
    → ((n : ℕ) → number_of (event n) ≡ n)
    → IsCounted m
    → IsCounted (ws_write ok event m)
unfolding ws_write
write-IsCounted false event m carries h = h
write-IsCounted true event m carries h = (
  IsNumbered-append 2 m.ws_sent (event m.ws_seq_no) h.0 (carries m.ws_seq_no ∙ h.1),
  omega (arith, h.1, length-append m.ws_sent (event m.ws_seq_no ∷ [])),
)

digit-IsCounted :
    (ok : Bool) (q : List String) (m : Media) → IsCounted m → IsCounted (write_digit ok q m)
digit-IsCounted ok [] m h = h
digit-IsCounted ok (d ∷ ds) m h =
    write-IsCounted ok (λ n. dtmf_event n d) (record m { dtmf_queue = ds }) (λ n. refl) h

mark-IsCounted :
    (ok : Bool) (q : List String) (m : Media) → IsCounted m → IsCounted (write_mark ok q m)
mark-IsCounted ok [] m h = h
mark-IsCounted ok (k ∷ ks) m h =
    write-IsCounted ok (λ n. mark_event n k) (record m { mark_echo_queue = ks }) (λ n. refl) h

media-IsCounted :
    (ok : Bool) (q : List (List ℕ)) (m : Media) → IsCounted m → IsCounted (write_media ok q m)
media-IsCounted ok [] m h = h
media-IsCounted ok (p ∷ ps) m h =
    write-IsCounted ok (λ n. media_event n p) (record m { rtp_inbound_queue = ps }) (λ n. refl) h

unless_done : (b : Bool) (m t : Media) → IsCounted m → IsCounted t → IsCounted (if b then m else t)
unless_done true m t h k = h
unless_done false m t h k = k

send-SameWs : (o : Outcome) (p : List ℕ) (m : Media) → SameWs m (send_rtp o p m)
unfolding send_rtp advance
send-SameWs sent p m = record { ws_sent = refl; ws_seq_no = refl }
send-SameWs _ p m = record { ws_sent = refl; ws_seq_no = refl }

frame-SameWs : (o : Outcome) (fs : List Frame) (m : Media) → SameWs m (send_frame o fs m)
unfolding send_frame advance
frame-SameWs o [] m = send-SameWs o m.silence_frame m
frame-SameWs o (audio p ∷ fs) m =
    let k = send-SameWs o p (record m { packet_queue = fs }) in
    record { ws_sent = k.ws_sent; ws_seq_no = k.ws_seq_no }
frame-SameWs o (mark name ∷ fs) m =
    let k = send-SameWs o m.silence_frame (record m { packet_queue = fs }) in
    ground (arith, k.ws_sent, k.ws_seq_no)

tick-SameWs : (o : Outcome) (m : Media) → SameWs m (tick o m)
unfolding tick drain_queue
tick-SameWs o m =
    let k = frame-SameWs o (drain_queue m).packet_queue (drain_queue m) in
    ground (arith, k.ws_sent, k.ws_seq_no)

put_mark-SameWs : (k : String) (q : List Frame) (m : Media) → SameWs m (put_mark k q m)
put_mark-SameWs k [] m = record { ws_sent = refl; ws_seq_no = refl }
put_mark-SameWs k (f ∷ fs) m = record { ws_sent = refl; ws_seq_no = refl }

packet-SameWs :
    (pt ts : ℕ) (p : List ℕ) (again : State) (m : Media) → SameWs m (on_packet pt ts p again m)
unfolding on_packet on_audio
packet-SameWs pt ts p again m = ground arith

step-IsCounted : (o : Op) (m : Media) → IsCounted m → IsCounted (step o m)
unfolding step on_media on_mark on_clear ws_digit ws_mark ws_tick
step-IsCounted (receives_media p) m h = h
step-IsCounted (receives_mark k) m h =
    IsCounted-same m (put_mark k m.packet_queue m) (put_mark-SameWs k m.packet_queue m) h
step-IsCounted receives_clear m h = h
step-IsCounted (receives_packet pt ts p again) m h =
    IsCounted-same m (on_packet pt ts p again m) (packet-SameWs pt ts p again m) h
step-IsCounted (ticks o) m h = IsCounted-same m (tick o m) (tick-SameWs o m) h
step-IsCounted (writes_digit ok) m h =
    unless_done m.ws_done m (write_digit ok m.dtmf_queue m) h (digit-IsCounted ok m.dtmf_queue m h)
step-IsCounted (writes_mark ok) m h =
    unless_done m.ws_done m (write_mark ok m.mark_echo_queue m) h
      (mark-IsCounted ok m.mark_echo_queue m h)
step-IsCounted (writes_media ok) m h =
    unless_done m.ws_done m (write_media ok m.rtp_inbound_queue m) h
      (media-IsCounted ok m.rtp_inbound_queue m h)

-- If the events written to the WebSocket are numbered from 2 on, modulo 2^32, and the pacer holds the
-- next number, the same holds after every alternation of the goroutines: digits, marks and audio share
-- one gapless numbering.
pub numbers_gapless : (os : List Op) (m : Media) → IsCounted m → IsCounted (run os m)
unfolding run
numbers_gapless [] m h = h
numbers_gapless (o ∷ os) m h = numbers_gapless os (step o m) (step-IsCounted o m h)
