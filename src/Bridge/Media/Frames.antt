-- ===== src/Bridge/Media/Frames.antt =====
-- How wsToRTP of session.go cuts a payload into frames.
use sipgate_sip_stream_bridg.Prelude.{
  ℕ, zero, suc, ◌≤◌, ◌≡◌, refl, List, [], ◌∷◌, ◌++◌, arith, length, take, drop, take-append-drop,
  length-take, length-drop, All, ap, ◌∙◌,
}
use sipgate_sip_stream_bridg.Bridge.Media.{cut, frames, rtp_frame_size}

abbrev pub concat {ℓ} : {A : Type ℓ} → List (List A) → List A
concat [] = []
concat (x ∷ xs) = x ++ concat xs

-- A frame of 20 ms or less.
abbrev pub IsFrame : List ℕ → Type 0
IsFrame f = (1 ≤ length f) × (length f ≤ 160)

cut_lem : (n : ℕ) (p : List ℕ) → length p ≤ n → (concat (cut n p) ≡ p) × All IsFrame (cut n p)
unfolding cut
cut_lem zero [] h = (refl, tt)
cut_lem zero (b ∷ p) h = ground arith
cut_lem (suc n) [] h = (refl, tt)
cut_lem (suc n) (b ∷ p) h =
    let rest = drop rtp_frame_size (b ∷ p) in
    let (all, small) = cut_lem n rest (omega (arith, length-drop rtp_frame_size (b ∷ p))) in
    (
      ap (λ l. take rtp_frame_size (b ∷ p) ++ l) all ∙ take-append-drop rtp_frame_size (b ∷ p),
      (
        (
          omega (arith, length-take rtp_frame_size (b ∷ p)),
          omega (arith, length-take rtp_frame_size (b ∷ p)),
        ),
        small,
      ),
    )

-- The frames of a payload hold exactly its bytes in order, and each has 1 to 160 bytes.
frames_lem : (p : List ℕ) → (concat (frames p) ≡ p) × All IsFrame (frames p)
unfolding frames
frames_lem p = cut_lem (length p) p (omega arith)
