-- ===== src/Bridge/Media/Relay/InOrder.antt =====
-- go/internal/bridge/session.go: what the callee hears of the caller.
use mathlib.Core.List.{append_assoc}
use sipgate_sip_stream_bridg.Prelude.{
  ℕ, inl, inr, ◌≡◌, refl, sym, ap, ◌∙◌, Bool, true, false, Option, List, [], ◌∷◌, ◌++◌, Bool-cases,
  ◌==◌, if◌then◌else◌,
}
use sipgate_sip_stream_bridg.Prelude.Subsequence.{
  Subsequence, Subsequence-refl, Subsequence-trans, Subsequence-of_eq, Subsequence-append,
  Subsequence-extends,
}
use sipgate_sip_stream_bridg.Bridge.State.{State}
use sipgate_sip_stream_bridg.Bridge.Leg.{Frame}
use sipgate_sip_stream_bridg.Bridge.Media.{on_packet}
use sipgate_sip_stream_bridg.Bridge.Media.Relay.{
  Callee, Bridged, Written, written, not_built, not_written, next_packet, write_packet,
  forward_chunk, take_chunk, callee_packet, callee_tick,
}
use sipgate_sip_stream_bridg.Bridge.Media.Relay.Heard.{
  heard, queued, payloads, relayed, heard-append, heard-Subsequence, payloads-append,
  on_packet-queued, take_chunk-heard,
}

-- The steps: a packet of either leg, with the second load of the phase for one of the caller, a tick of the callee's pacer, a new phase of the call.
pub data Op : Type 0 where
  caller_sends : ℕ → ℕ → List ℕ → State → Op
  callee_sends : ℕ → List ℕ → Op
  ticks : Written → Op
  enters : State → Op

unfoldable pub step : Callee → Op → Bridged → Bridged
step c (caller_sends pt ts p again) b = record b { media = on_packet pt ts p again b.media }
step c (callee_sends pt p) b = callee_packet c pt p b
step c (ticks o) b = callee_tick c o b
step c (enters s) b = record b { media = record b.media { state = s } }

unfoldable pub run : Callee → List Op → Bridged → Bridged
run c [] b = b
run c (o ∷ os) b = run c os (step c o b)

abbrev pub arrived : Op → List (List ℕ)
arrived (caller_sends pt ts p again) = p ∷ []
arrived (callee_sends pt p) = []
arrived (ticks o) = []
arrived (enters s) = []

abbrev pub arrivals : List Op → List (List ℕ)
arrivals [] = []
arrivals (o ∷ os) = arrived o ++ arrivals os

written-payloads :
    (chunk : List ℕ) (b : Bridged)
    → payloads (write_packet chunk b).rtp_sent ≡ payloads b.rtp_sent ++ chunk ∷ []
unfolding write_packet
written-payloads chunk b = payloads-append b.rtp_sent _

forward_chunk-payloads :
    (has_remote : Bool) (o : Written) (chunk : List ℕ) (b : Bridged)
    → Subsequence
        (payloads (forward_chunk has_remote o chunk b).rtp_sent)
        (payloads b.rtp_sent ++ chunk ∷ [])
unfolding forward_chunk next_packet
forward_chunk-payloads has_remote not_built chunk b =
    Subsequence-extends (payloads b.rtp_sent) (chunk ∷ [])
forward_chunk-payloads false written chunk b =
    Subsequence-extends (payloads b.rtp_sent) (chunk ∷ [])
forward_chunk-payloads false not_written chunk b =
    Subsequence-extends (payloads b.rtp_sent) (chunk ∷ [])
forward_chunk-payloads true written chunk b = Subsequence-of_eq (written-payloads chunk b)
forward_chunk-payloads true not_written chunk b =
    Subsequence-extends (payloads b.rtp_sent) (chunk ∷ [])

forward_chunk-media :
    (has_remote : Bool) (o : Written) (chunk : List ℕ) (b : Bridged)
    → (forward_chunk has_remote o chunk b).media ≡ b.media
unfolding forward_chunk next_packet write_packet
forward_chunk-media has_remote not_built chunk b = refl
forward_chunk-media false written chunk b = refl
forward_chunk-media false not_written chunk b = refl
forward_chunk-media true written chunk b = refl
forward_chunk-media true not_written chunk b = refl

forward_chunk-relayed :
    (c : Callee) (o : Written) (chunk : List ℕ) (rest : Option (List Frame)) (b : Bridged)
    → heard c.silence_frame (chunk ∷ queued rest)
      ≡ heard c.silence_frame (queued b.media.peer_queue)
    → Subsequence
        (relayed c (
          forward_chunk c.has_remote o chunk
            (record b { media = record b.media { peer_queue = rest } })))
        (relayed c b)
forward_chunk-relayed c o chunk rest b e =
    let taken = record b { media = record b.media { peer_queue = rest } } in
    let sil = c.silence_frame in
    let before = payloads b.rtp_sent in
    let waiting = queued b.media.peer_queue in
    Subsequence-trans
      (Subsequence-of_eq (
        ap (heard sil) (append_assoc before (chunk ∷ []) (queued rest))
        ∙ (heard-append sil before (chunk ∷ queued rest)
            ∙ (ap (λ l. heard sil before ++ l) e ∙ sym (heard-append sil before waiting)))))
      (rw (forward_chunk-media c.has_remote o chunk taken) (
        heard-Subsequence sil (
          Subsequence-append (forward_chunk-payloads c.has_remote o chunk taken)
            (Subsequence-refl (queued rest)))))

relayed-if :
    (c : Callee) (d : Bool) (x y b : Bridged)
    → Subsequence (relayed c x) (relayed c b)
    → Subsequence (relayed c y) (relayed c b)
    → Subsequence (relayed c (if d then x else y)) (relayed c b)
relayed-if c true x y b hx hy = hx
relayed-if c false x y b hx hy = hy

-- Silence apart, a tick of the pacer only moves what waits.
callee_tick-relayed :
    (c : Callee) (o : Written) (b : Bridged)
    → Subsequence (relayed c (callee_tick c o b)) (relayed c b)
unfolding callee_tick
callee_tick-relayed c o b =
    let (chunk, rest) = take_chunk c.silence_frame b.media.peer_queue in
    relayed-if c b.pacer_done b _ b (Subsequence-refl (relayed c b))
      (forward_chunk-relayed c o chunk rest b (take_chunk-heard c.silence_frame b.media.peer_queue))

packet-relayed :
    (c : Callee) (pt ts : ℕ) (p : List ℕ) (again : State) (b : Bridged)
    → Subsequence
        (relayed c (record b { media = on_packet pt ts p again b.media }))
        (relayed c b ++ heard c.silence_frame (p ∷ []))
packet-relayed c pt ts p again b =
    let grown = heard-Subsequence c.silence_frame (
      Subsequence-append (Subsequence-refl (payloads b.rtp_sent))
        (on_packet-queued pt ts p again b.media)) in
    Subsequence-trans
      (Subsequence-of_eq (
        ap (heard c.silence_frame)
          (sym (append_assoc (payloads b.rtp_sent) (queued b.media.peer_queue) (p ∷ [])))
        ∙ heard-append c.silence_frame (payloads b.rtp_sent ++ queued b.media.peer_queue) (p ∷ [])))
      grown

callee_packet-relayed :
    (c : Callee) (pt : ℕ) (p : List ℕ) (b : Bridged)
    → relayed c (callee_packet c pt p b) ≡ relayed c b
unfolding callee_packet
callee_packet-relayed c pt p b = elim (Bool-cases (pt == c.audio_pt)) [
  | inl e ↦ rw e refl
  | inr e ↦ rw e refl
]

step-relayed :
    (c : Callee) (o : Op) (b : Bridged)
    → Subsequence (relayed c (step c o b)) (relayed c b ++ heard c.silence_frame (arrived o))
unfolding step
step-relayed c (caller_sends pt ts p again) b = packet-relayed c pt ts p again b
step-relayed c (callee_sends pt p) b =
    Subsequence-trans (Subsequence-extends (relayed c b) [])
      (Subsequence-of_eq (callee_packet-relayed c pt p b))
step-relayed c (ticks o) b =
    Subsequence-trans (Subsequence-extends (relayed c b) []) (callee_tick-relayed c o b)
step-relayed c (enters s) b = Subsequence-extends (relayed c b) []

-- However the packets of both legs, the ticks of the callee's pacer and the phases of the call
-- alternate: what was sent to the callee and what waits for it are, without silence, packets of the
-- caller in the order of their arrival, none twice, after what was sent or waited before.
pub relay_in_order :
    (c : Callee) (os : List Op) (b : Bridged)
    → Subsequence (relayed c (run c os b)) (relayed c b ++ heard c.silence_frame (arrivals os))
unfolding run
relay_in_order c [] b = Subsequence-extends (relayed c b) []
relay_in_order c (o ∷ os) b =
    let sil = c.silence_frame in
    Subsequence-trans
      (Subsequence-of_eq (
        append_assoc (relayed c b) (heard sil (arrived o)) (heard sil (arrivals os))
        ∙ ap (λ l. relayed c b ++ l) (sym (heard-append sil (arrived o) (arrivals os)))))
      (Subsequence-trans
        (Subsequence-append (step-relayed c o b) (Subsequence-refl (heard sil (arrivals os))))
        (relay_in_order c os (step c o b)))
