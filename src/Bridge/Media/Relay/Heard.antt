-- ===== src/Bridge/Media/Relay/Heard.antt =====
-- go/internal/bridge/session.go: the payloads on their way to the callee, without silence.
use sipgate_sip_stream_bridg.Prelude.{
  ℕ, String, inl, inr, ◌≡◌, refl, ap, Bool, true, false, Option, none, some, List, [], ◌∷◌, ◌++◌,
  arith, Bool-cases, ltb, length, ◌==◌, if◌then◌else◌,
}
use sipgate_sip_stream_bridg.Prelude.Text.{same, same_iff}
use sipgate_sip_stream_bridg.Prelude.Subsequence.{
  Subsequence, done, keep, skip, Subsequence-of_eq, Subsequence-extends,
}
use sipgate_sip_stream_bridg.Bridge.State.{State, forwarding, dialing_out, state_eq}
use sipgate_sip_stream_bridg.Bridge.Leg.{Frame, audio, mark, packet_queue_size}
use sipgate_sip_stream_bridg.Bridge.Leg.Queue.{offer}
use sipgate_sip_stream_bridg.Bridge.Media.{
  Media, RtpOut, on_packet, on_audio, on_digit, parse_telephone_event, relay,
}
use sipgate_sip_stream_bridg.Bridge.Media.Relay.{Callee, Bridged, take_chunk}

-- The payloads that are not the silence.
abbrev pub heard : List ℕ → List (List ℕ) → List (List ℕ)
heard silence [] = []
heard silence (p ∷ ps) = if same p silence then heard silence ps else p ∷ heard silence ps

abbrev pub audio_of : List Frame → List (List ℕ)
audio_of [] = []
audio_of (audio p ∷ fs) = p ∷ audio_of fs
audio_of (mark name ∷ fs) = audio_of fs

abbrev pub queued : Option (List Frame) → List (List ℕ)
queued none = []
queued (some fs) = audio_of fs

abbrev pub payloads : List RtpOut → List (List ℕ)
payloads [] = []
payloads (r ∷ rs) = r.payload ∷ payloads rs

-- What went to the callee and what waits for it, without silence.
abbrev pub relayed : Callee → Bridged → List (List ℕ)
relayed c b = heard c.silence_frame (payloads b.rtp_sent ++ queued b.media.peer_queue)

pub heard-append :
    (silence : List ℕ) (ps qs : List (List ℕ))
    → heard silence (ps ++ qs) ≡ heard silence ps ++ heard silence qs
heard-append silence [] qs = refl
heard-append silence (p ∷ ps) qs = ground (arith, heard-append silence ps qs)

pub heard-Subsequence :
    (silence : List ℕ) {ps qs : List (List ℕ)}
    → Subsequence ps qs
    → Subsequence (heard silence ps) (heard silence qs)
heard-Subsequence silence done = done
heard-Subsequence silence (keep {x = p} s) =
    let rest = heard-Subsequence silence s in
    elim (Bool-cases (same p silence)) [ inl e ↦ rw e rest | inr e ↦ rw e (keep rest) ]
heard-Subsequence silence (skip {x = q} s) =
    let rest = heard-Subsequence silence s in
    elim (Bool-cases (same q silence)) [ inl e ↦ rw e rest | inr e ↦ rw e (skip rest) ]

pub payloads-append : (rs ss : List RtpOut) → payloads (rs ++ ss) ≡ payloads rs ++ payloads ss
payloads-append [] ss = refl
payloads-append (r ∷ rs) ss = ap (λ l. r.payload ∷ l) (payloads-append rs ss)

audio_of-append : (fs gs : List Frame) → audio_of (fs ++ gs) ≡ audio_of fs ++ audio_of gs
audio_of-append [] gs = refl
audio_of-append (audio p ∷ fs) gs = ap (λ l. p ∷ l) (audio_of-append fs gs)
audio_of-append (mark name ∷ fs) gs = audio_of-append fs gs

relay-queued :
    (p : List ℕ) (q : Option (List Frame)) → Subsequence (queued (relay p q)) (queued q ++ p ∷ [])
unfolding offer
relay-queued p none = Subsequence-extends [] (p ∷ [])
relay-queued p (some fs) = elim (Bool-cases (ltb (length fs) packet_queue_size)) [
  | inl e ↦ rw e (Subsequence-of_eq (audio_of-append fs (audio p ∷ [])))
  | inr e ↦ rw e (Subsequence-extends (audio_of fs) (p ∷ []))
]

on_digit-peer_queue :
    (ts : ℕ) (o : Option (String × Bool)) (m : Media) → (on_digit ts o m).peer_queue ≡ m.peer_queue
on_digit-peer_queue ts none m = refl
on_digit-peer_queue ts (some (digit, false)) m = refl
on_digit-peer_queue ts (some (digit, true)) m = ground arith

pub on_packet-queued :
    (pt ts : ℕ) (p : List ℕ) (again : State) (m : Media)
    → Subsequence (queued (on_packet pt ts p again m).peer_queue) (queued m.peer_queue ++ p ∷ [])
unfolding on_packet on_audio
on_packet-queued pt ts p again m =
    let same_queue = Subsequence-extends (queued m.peer_queue) (p ∷ []) in
    elim (Bool-cases (pt == m.dtmf_pt)) [
      | inl e ↦ rw (e, on_digit-peer_queue ts (parse_telephone_event p) m) same_queue
      | inr e ↦ elim (Bool-cases (pt == m.audio_pt)) [
        | inl a ↦ elim (Bool-cases (state_eq m.state forwarding)) [
          | inl f ↦ rw (e, a, f) (relay-queued p m.peer_queue)
          | inr f ↦ elim (Bool-cases (state_eq again dialing_out)) [
            | inl d ↦ rw (e, a, f, d) same_queue
            | inr d ↦ rw (e, a, f, d) same_queue
          ]
        ]
        | inr a ↦ rw (e, a) same_queue
      ]
    ]

-- The chunk of a tick, with the rest of the queue, is the queue, silence apart.
pub take_chunk-heard :
    (silence : List ℕ) (q : Option (List Frame))
    → heard silence ((take_chunk silence q).0 ∷ queued (take_chunk silence q).1)
      ≡ heard silence (queued q)
unfolding take_chunk
take_chunk-heard silence none = rw ((same_iff silence silence).1 refl) refl
take_chunk-heard silence (some []) = rw ((same_iff silence silence).1 refl) refl
take_chunk-heard silence (some (audio p ∷ fs)) = refl
take_chunk-heard silence (some (mark name ∷ fs)) = rw ((same_iff silence silence).1 refl) refl
