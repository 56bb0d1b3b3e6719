-- ===== src/Sip/Guardrails/Target.antt =====
-- What normalizeTarget of guardrails.go makes of a target, and what maskTarget keeps of it.
use sipgate_sip_stream_bridg.Prelude.{
  ℕ, zero, suc, ◌+◌, ◌-◌, ◌≤◌, ◌≡◌, refl, Bool, false, ◌&&◌, [], ◌∷◌, ◌++◌, arith, leb, ◌==◌,
  length, replicate, take, drop, All, Bool-cases, inl, inr, ap, length-append, length-replicate,
  length-drop,
}
use sipgate_sip_stream_bridg.Prelude.Text.{
  Text, codes, lower, to_lower, trim_space, strip, trim_prefix, starts_with, remove_if,
}
use sipgate_sip_stream_bridg.Sip.Guardrails.{is_blank, international, normalize_target, mask_target}

abbrev pub is_upper : ℕ → Bool
is_upper c = leb b'A' c && leb c b'Z'

abbrev IsLower : ℕ → Type 0
IsLower c = is_upper c ≡ false

abbrev pub IsPlain : ℕ → Type 0
IsPlain c = (is_blank c ≡ false) × (is_upper c ≡ false)

lower-IsLower : (c : ℕ) → IsLower (lower c)
unfolding lower
lower-IsLower c = ground arith

to_lower-IsLower : (s : Text) → All IsLower (to_lower s)
unfolding to_lower
to_lower-IsLower [] = tt
to_lower-IsLower (c ∷ s) = (lower-IsLower c, to_lower-IsLower s)

strip-All : (P : ℕ → Type 0) (p s whole : Text) → All P s → All P whole → All P (strip p s whole)
unfolding strip
strip-All P [] s whole h w = h
strip-All P (a ∷ p) [] whole h w = w
strip-All P (a ∷ p) (c ∷ s) whole h w = elim (Bool-cases (a == c)) [
  | inl e ↦ rw e (strip-All P p s whole h.1 w)
  | inr e ↦ rw e w
]

trim_prefix-All : (P : ℕ → Type 0) (p s : Text) → All P s → All P (trim_prefix p s)
unfolding trim_prefix
trim_prefix-All P p s h = strip-All P p s s h h

remove_if-IsPlain : (s : Text) → All IsLower s → All IsPlain (remove_if is_blank s)
unfolding remove_if
remove_if-IsPlain [] h = tt
remove_if-IsPlain (c ∷ s) h = elim (Bool-cases (is_blank c)) [
  | inl e ↦ rw e (remove_if-IsPlain s h.1)
  | inr e ↦ rw e ((e, h.0), remove_if-IsPlain s h.1)
]

drop-All : (P : ℕ → Type 0) (n : ℕ) (s : Text) → All P s → All P (drop n s)
drop-All P zero s h = h
drop-All P (suc n) [] h = tt
drop-All P (suc n) (c ∷ s) h = drop-All P n s h.1

international-IsPlain : (t : Text) → All IsPlain t → All IsPlain (international t)
international-IsPlain t h = elim (Bool-cases (starts_with (codes "00") t)) [
  | inl e ↦ rw e ((refl, refl), drop-All IsPlain 2 t h)
  | inr e ↦ rw e h
]

international-starts_with : (t : Text) → starts_with (codes "00") (international t) ≡ false
unfolding starts_with
international-starts_with t = elim (Bool-cases (starts_with (codes "00") t)) [
  | inl e ↦ rw e refl
  | inr e ↦ rw e e
]

-- Whatever was dialled, the target that the allow-list sees has no blank and no upper-case letter,
-- and does not begin with "00".
pub normalize_target_lem :
    (target : Text)
    → All IsPlain (normalize_target target)
      × (starts_with (codes "00") (normalize_target target) ≡ false)
unfolding normalize_target
normalize_target_lem target =
    let low = to_lower (trim_space target) in
    let t = trim_prefix (codes "sip:") (trim_prefix (codes "tel:") low) in
    (
      international-IsPlain (remove_if is_blank t) (
          remove_if-IsPlain t (
            trim_prefix-All IsLower (codes "sip:") (trim_prefix (codes "tel:") low)
              (trim_prefix-All IsLower (codes "tel:") low (to_lower-IsLower (trim_space target))))),
      international-starts_with (remove_if is_blank t),
    )

take-replicate : (n m : ℕ) (ys : Text) → n ≤ m → take n (replicate m b'*' ++ ys) ≡ replicate n b'*'
take-replicate zero m ys h = refl
take-replicate (suc n) zero ys h = absurd (omega arith)
take-replicate (suc n) (suc m) ys h = ap (◌∷◌ b'*') (take-replicate n m ys (omega arith))

length-mask_target : (t : Text) → length (mask_target t) ≡ length t
unfolding mask_target
length-mask_target t = elim (Bool-cases (leb (length t) 4)) [
  | inl e ↦ rw e (length-replicate {A = ℕ} (length t) b'*')
  | inr e ↦ rw e (
      omega (
        arith,
        length-append (replicate (length t - 4) b'*') (drop (length t - 4) t),
        length-replicate {A = ℕ} (length t - 4) b'*',
        length-drop (length t - 4) t,
      ))
]

mask_target_stars :
    (t : Text) (n : ℕ) → n + 4 ≤ length t → take n (mask_target t) ≡ replicate n b'*'
unfolding mask_target
mask_target_stars t zero h = refl
mask_target_stars t (suc n) h = elim (Bool-cases (leb (length t) 4)) [
  | inl e ↦ absurd (ground arith)
  | inr e ↦ rw e (take-replicate (suc n) (length t - 4) (drop (length t - 4) t) (omega arith))
]

mask_target_short : (t : Text) → length t ≤ 4 → mask_target t ≡ replicate (length t) b'*'
unfolding mask_target
mask_target_short t h = ground arith

-- maskTarget keeps the length of a target, turns all but its last four codes into stars, and turns
-- every code of a target of at most four into a star.
pub mask_target_lem :
    (t : Text)
    → (length (mask_target t) ≡ length t)
      × ((n : ℕ) → n + 4 ≤ length t → take n (mask_target t) ≡ replicate n b'*')
      × (length t ≤ 4 → mask_target t ≡ replicate (length t) b'*')
mask_target_lem t = (length-mask_target t, mask_target_stars t, mask_target_short t)
