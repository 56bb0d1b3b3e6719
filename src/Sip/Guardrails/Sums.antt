-- ===== src/Sip/Guardrails/Sums.antt =====
-- Sums over the slots of the rolling minute.
use sipgate_sip_stream_bridg.Prelude.{ℕ, zero, suc, ◌+◌, ◌<◌, ◌≡◌, ◌≢◌, refl, arith}
use native.Mathlib.Decide.{ℕ_discrete}
use sipgate_sip_stream_bridg.Sip.Guardrails.{sum_slots}

pub sum_slots_zero : (n : ℕ) (f : ℕ → ℕ) → ((i : ℕ) → i < n → f i ≡ 0) → sum_slots n f ≡ 0
unfolding sum_slots
sum_slots_zero zero f h = refl
sum_slots_zero (suc n) f h =
    omega (arith, sum_slots_zero n f (λ i l. h i (omega arith)), h n (omega arith))

-- Only one slot counts.
pub sum_slots_point :
    (n k : ℕ) (f : ℕ → ℕ) → k < n → ((i : ℕ) → i < n → i ≢ k → f i ≡ 0) → sum_slots n f ≡ f k
unfolding sum_slots
sum_slots_point zero k f l h = absurd (omega arith)
sum_slots_point (suc n) k f l h = elim (ℕ_discrete n k) [
  | yes e ↦ rw (← e) (omega (arith, sum_slots_zero n f (λ i m. h i (omega arith) (omega arith))))
  | no ne ↦
      omega (
        arith,
        sum_slots_point n k f (omega arith) (λ i m. h i (omega arith)),
        h n (omega arith) ne,
      )
]

pub sum_slots-add :
    (n : ℕ) (f g h : ℕ → ℕ)
    → ((i : ℕ) → i < n → f i ≡ g i + h i)
    → sum_slots n f ≡ sum_slots n g + sum_slots n h
unfolding sum_slots
sum_slots-add zero f g h e = refl
sum_slots-add (suc n) f g h e =
    omega (arith, sum_slots-add n f g h (λ i l. e i (omega arith)), e n (omega arith))

pub sum_slots-ext :
    (n : ℕ) (f g : ℕ → ℕ) → ((i : ℕ) → i < n → f i ≡ g i) → sum_slots n f ≡ sum_slots n g
unfolding sum_slots
sum_slots-ext zero f g e = refl
sum_slots-ext (suc n) f g e =
    omega (arith, sum_slots-ext n f g (λ i l. e i (omega arith)), e n (omega arith))
