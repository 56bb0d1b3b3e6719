-- ===== src/Sip/Sdp/Negotiation.antt =====
-- What the offer of a caller is read as, and what is negotiated from it, in sdp.go.
use sipgate_sip_stream_bridg.Prelude.{
  ℕ, ◌≡◌, refl, String, Bool, true, false, Option, none, some, List, [], ◌∷◌, ◌++◌, arith, str_eq,
  if◌then◌else◌, ◌∙◌, ap, sym, Bool-cases, inl, inr, ◌⊎◌, ◌≢◌, ◌==◌, ==_iff, str_eq_iff,
}
use mathlib.Core.List.{append_assoc, append-nil}
use sipgate_sip_stream_bridg.Prelude.Text.{Text, codes}
use sipgate_sip_stream_bridg.Webhook.Ssrf.{equal_fold}
use sipgate_sip_stream_bridg.Sip.Sdp.{
  CallerSdp, add_format, scan_formats, caller_formats, is_offered, keep_offered, answer_codecs,
  negotiated_pt, answer_formats,
}

abbrev pub IsOneOf : ℕ → List ℕ → Type 0
IsOneOf n [] = ⊥
IsOneOf n (m ∷ ms) = (m ≡ n) ⊎ IsOneOf n ms

-- `l` has the payload type if it is offered, and nothing else.
abbrev pub IsIfOffered : ℕ → List ℕ → List ℕ → Type 0
IsIfOffered pt offer l = (IsOneOf pt offer × (l ≡ pt ∷ [])) ⊎ ((¬ IsOneOf pt offer) × (l ≡ []))

-- Mode "best": `pt` is negotiated of the offer, and `formats` are answered with the telephone-event
-- `dtmf`.
pub record IsNegotiated (offer : List ℕ) (dtmf pt : ℕ) (formats : List ℕ) : Type 0 where
  pub first :
      (IsOneOf 9 offer × (pt ≡ 9))
      ⊎ ((¬ IsOneOf 9 offer) × IsOneOf 8 offer × (pt ≡ 8))
      ⊎ ((¬ IsOneOf 9 offer) × (¬ IsOneOf 8 offer) × (pt ≡ 0))
  pub advertised :
      (g722 : List ℕ) × (pcma : List ℕ) × (pcmu : List ℕ) × (formats
        ≡ g722 ++ (pcma ++ (pcmu ++ dtmf ∷ [])))
      × IsIfOffered 9 offer g722
      × IsIfOffered 8 offer pcma
      × IsIfOffered 0 offer pcmu

is_offered-IsOneOf : (pts : List ℕ) (pt : ℕ) → is_offered pts pt ≡ true → IsOneOf pt pts
unfolding is_offered
is_offered-IsOneOf [] pt h = cc
is_offered-IsOneOf (o ∷ os) pt h = elim (Bool-cases (o == pt)) [
  | inl e ↦ inl ((==_iff o pt).0 e)
  | inr e ↦ inr (is_offered-IsOneOf os pt (ground arith))
]

not_offered : (pts : List ℕ) (pt : ℕ) → is_offered pts pt ≡ false → ¬ IsOneOf pt pts
unfolding is_offered
not_offered [] pt h k = k
not_offered (o ∷ os) pt h (inl e) = ground arith
not_offered (o ∷ os) pt h (inr k) = not_offered os pt (ground arith) k

-- What the loop keeps of one codec.
abbrev kept : List ℕ → ℕ → List ℕ
kept pts pt = if is_offered pts pt then pt ∷ [] else []

kept-IsIfOffered : (pts : List ℕ) (pt : ℕ) → IsIfOffered pt pts (kept pts pt)
kept-IsIfOffered pts pt = elim (Bool-cases (is_offered pts pt)) [
  | inl e ↦ inl (is_offered-IsOneOf pts pt e, rw e refl)
  | inr e ↦ inr (not_offered pts pt e, rw e refl)
]

best_formats :
    (caller : CallerSdp)
    → let pts = caller.audio_payload_types in
      answer_formats "best" caller
      ≡ kept pts 9 ++ (kept pts 8 ++ (kept pts 0 ++ caller.dtmf_payload_type ∷ []))
unfolding answer_formats answer_codecs keep_offered
best_formats caller = ground arith

best_pt :
    (caller : CallerSdp)
    → let offers = is_offered caller.audio_payload_types in
      negotiated_pt "best" caller ≡ (if offers 9 then 9 else if offers 8 then 8 else 0)
unfolding negotiated_pt answer_codecs keep_offered
best_pt caller = ground arith

best_first :
    (pts : List ℕ)
    → let pt : ℕ = if is_offered pts 9 then 9 else if is_offered pts 8 then 8 else 0 in
      (IsOneOf 9 pts × (pt ≡ 9))
      ⊎ ((¬ IsOneOf 9 pts) × IsOneOf 8 pts × (pt ≡ 8))
      ⊎ ((¬ IsOneOf 9 pts) × (¬ IsOneOf 8 pts) × (pt ≡ 0))
best_first pts = elim (Bool-cases (is_offered pts 9)) [
  | inl e ↦ inl (is_offered-IsOneOf pts 9 e, rw e refl)
  | inr e ↦ elim (Bool-cases (is_offered pts 8)) [
    | inl k ↦ inr (inl (not_offered pts 9 e, is_offered-IsOneOf pts 8 k, rw (e, k) refl))
    | inr k ↦ inr (inr (not_offered pts 9 e, not_offered pts 8 k, rw (e, k) refl))
  ]
]

best-IsNegotiated :
    (caller : CallerSdp)
    → IsNegotiated caller.audio_payload_types caller.dtmf_payload_type
        (negotiated_pt "best" caller)
        (answer_formats "best" caller)
best-IsNegotiated caller =
    let pts = caller.audio_payload_types in
    rw (best_pt caller, best_formats caller)
      (record {
        first = best_first pts;
        advertised = (
          kept pts 9,
          kept pts 8,
          kept pts 0,
          refl,
          kept-IsIfOffered pts 9,
          kept-IsIfOffered pts 8,
          kept-IsIfOffered pts 0,
        );
      })

other_mode :
    (mode : String) (caller : CallerSdp)
    → str_eq mode "best" ≡ false
    → (negotiated_pt mode caller ≡ 0)
      × (answer_formats mode caller ≡ 0 ∷ caller.dtmf_payload_type ∷ [])
unfolding negotiated_pt answer_formats answer_codecs
other_mode mode caller e = rw e (refl, refl)

-- In mode "best" the negotiated payload type is the first of G.722, PCMA and PCMU that the caller
-- offers, and PCMU, offered or not, if it offers neither of the other two; the answer advertises those
-- of the three that are offered, in this order, before the telephone-event. In every other mode PCMU is
-- negotiated, and advertised with the telephone-event.
pub negotiated_pt_lem :
    (mode : String) (caller : CallerSdp)
    → ((mode ≡ "best")
        × IsNegotiated caller.audio_payload_types caller.dtmf_payload_type
            (negotiated_pt mode caller)
            (answer_formats mode caller))
      ⊎ ((mode ≢ "best")
          × (negotiated_pt mode caller ≡ 0)
          × (answer_formats mode caller ≡ 0 ∷ caller.dtmf_payload_type ∷ []))
negotiated_pt_lem mode caller = elim (Bool-cases (str_eq mode "best")) [
  | inl e ↦
      let same = (str_eq_iff mode "best").0 e in inl (same, rw same (best-IsNegotiated caller))
  | inr e ↦
      let (pt, formats) = other_mode mode caller e in
      inr (λ h. ground (arith, str_eq_iff mode "best"), pt, formats)
]

-- The offer read at once: the audio payload types, and the last telephone-event.
abbrev pub is_event : Option Text → Bool
is_event none = false
is_event (some name) = equal_fold name (codes "telephone-event")

abbrev pub is_audio : Option Text → Bool
is_audio none = false
is_audio (some name) = if equal_fold name (codes "telephone-event") then false else true

abbrev pub audio_of : (ℕ → Option Text) → List (Option ℕ) → List ℕ
audio_of codec [] = []
audio_of codec (none ∷ fs) = audio_of codec fs
audio_of codec (some pt ∷ fs) =
    if is_audio (codec pt) then pt ∷ audio_of codec fs else audio_of codec fs

abbrev pub last_event : (ℕ → Option Text) → ℕ → List (Option ℕ) → ℕ
last_event codec pt [] = pt
last_event codec pt (none ∷ fs) = last_event codec pt fs
last_event codec pt (some q ∷ fs) = last_event codec (if is_event (codec q) then q else pt) fs

add_format_lem :
    (o : Option Text) (pt d : ℕ) (audio : List ℕ)
    → add_format o pt (d, audio)
      ≡ ((if is_event o then pt else d), audio ++ (if is_audio o then pt ∷ [] else []))
add_format_lem none pt d audio = ap (λ (l : List ℕ). (d, l)) (sym (append-nil audio))
add_format_lem (some name) pt d audio =
    elim (Bool-cases (equal_fold name (codes "telephone-event"))) [
      | inl e ↦ rw e (ap (λ (l : List ℕ). (pt, l)) (sym (append-nil audio)))
      | inr e ↦ rw e refl
    ]

one_more :
    (b : Bool) (pt : ℕ) (rest : List ℕ)
    → (if b then pt ∷ [] else []) ++ rest ≡ (if b then pt ∷ rest else rest)
one_more true pt rest = refl
one_more false pt rest = refl

scan_formats_lem :
    (codec : ℕ → Option Text) (fs : List (Option ℕ)) (d : ℕ) (audio : List ℕ)
    → scan_formats codec fs (d, audio) ≡ (last_event codec d fs, audio ++ audio_of codec fs)
unfolding scan_formats
scan_formats_lem codec [] d audio = ap (λ (l : List ℕ). (d, l)) (sym (append-nil audio))
scan_formats_lem codec (none ∷ fs) d audio = scan_formats_lem codec fs d audio
scan_formats_lem codec (some pt ∷ fs) d audio =
    let one = if is_audio (codec pt) then pt ∷ [] else [] in
    let event = if is_event (codec pt) then pt else d in
    ap (scan_formats codec fs) (add_format_lem (codec pt) pt d audio)
    ∙ scan_formats_lem codec fs event (audio ++ one)
    ∙ ap (λ (l : List ℕ). (last_event codec event fs, l))
        (append_assoc audio one (audio_of codec fs)
          ∙ ap (λ l. audio ++ l) (one_more (is_audio (codec pt)) pt (audio_of codec fs)))

-- ParseCallerSDP takes as audio exactly the formats of known codecs other than telephone-event, in the
-- order of the offer, and as DTMF the last telephone-event, or 101 without one.
caller_formats_lem :
    (codec : ℕ → Option Text) (fs : List (Option ℕ))
    → caller_formats codec fs ≡ (last_event codec 101 fs, audio_of codec fs)
unfolding caller_formats
caller_formats_lem codec fs = scan_formats_lem codec fs 101 []
