-- ===== src/Sip/Guardrails/Window.antt =====
-- The slots of the rolling minute against the log of the dials that were let through: the sum that
-- checkAndIncrementGlobal of guardrails.go computes is the number of dials of the last 60 seconds.
use sipgate_sip_stream_bridg.Prelude.{
  ℕ, ◌+◌, ◌-◌, ◌%◌, ◌≤◌, ◌<◌, ◌≡◌, List, [], ◌∷◌, inl, inr, ◌∙◌, arith, ltb, ◌==◌, if◌then◌else◌,
  Bool-cases,
}
use sipgate_sip_stream_bridg.Sip.Guardrails.{Guardrails, slot_count, sum_slots}
use sipgate_sip_stream_bridg.Sip.Guardrails.Sums.{
  sum_slots_zero, sum_slots_point, sum_slots-add, sum_slots-ext,
}

-- How often a second occurs in the log.
abbrev pub occurrences : ℕ → List ℕ → ℕ
occurrences t [] = 0
occurrences t (u ∷ log) = (if u == t then 1 else 0) + occurrences t log

-- How many of the log's dials lie in the 60 seconds up to `now`.
abbrev pub window_count : ℕ → List ℕ → ℕ
window_count now [] = 0
window_count now (u ∷ log) = (if ltb (now - u) 60 then 1 else 0) + window_count now log

-- What the slots know of the log, at a time after its last entry.
pub record Tracks (g : Guardrails) (last : ℕ) (log : List ℕ) : Type 0 where
  pub exact : (i : ℕ) → i < 60 → g.bucket_counts i ≡ occurrences (g.bucket_secs i) log
  pub placed : (i : ℕ) → i < 60 → 0 < g.bucket_secs i → g.bucket_secs i % 60 ≡ i
  pub recent : (t : ℕ) → 0 < occurrences t log → last < t + 60 → g.bucket_secs (t % 60) ≡ t
  pub dated : (t : ℕ) → 0 < occurrences t log → (0 < t) × (t ≤ last)

-- The part of a slot's count that one entry of the log makes up.
abbrev share : Guardrails → ℕ → ℕ → ℕ → ℕ
share g now t i =
    if ltb (now - g.bucket_secs i) 60 then (if t == g.bucket_secs i then 1 else 0) else 0

abbrev logged : Guardrails → ℕ → List ℕ → ℕ → ℕ
logged g now log i = if ltb (now - g.bucket_secs i) 60 then occurrences (g.bucket_secs i) log else 0

module _ (g : Guardrails) (now : ℕ)
    (placed : (i : ℕ) → i < 60 → 0 < g.bucket_secs i → g.bucket_secs i % 60 ≡ i) where
  sum-share :
      (t : ℕ)
      → 0 < t
      → (now < t + 60 → g.bucket_secs (t % 60) ≡ t)
      → sum_slots 60 (share g now t) ≡ (if ltb (now - t) 60 then 1 else 0)
  sum-share t p r = elim (Bool-cases (ltb (now - t) 60)) [
    | inl e ↦
        sum_slots_point 60 (t % 60) (share g now t) (omega arith)
          (λ i l ne. ground (arith, placed i l))
        ∙ ground (arith, r)
    | inr e ↦ rw e (sum_slots_zero 60 (share g now t) (λ i l. ground arith))
  ]

  sum-logged :
      (log : List ℕ)
      → ((t : ℕ) → 0 < occurrences t log → 0 < t)
      → ((t : ℕ) → 0 < occurrences t log → now < t + 60 → g.bucket_secs (t % 60) ≡ t)
      → sum_slots 60 (logged g now log) ≡ window_count now log
  sum-logged [] p r = sum_slots_zero 60 (logged g now []) (λ i l. ground arith)
  sum-logged (t ∷ log) p r = omega (
    arith,
    sum_slots-add 60 (logged g now (t ∷ log)) (share g now t) (logged g now log)
        (λ i l. ground arith),
    sum-share t (p t (ground arith)) (r t (ground arith)),
    sum-logged log (λ u h. p u (omega arith)) (λ u h. r u (omega arith)),
  )

-- The sum over the slots is the number of dials in the window.
pub sum_slots-window_count :
    (g : Guardrails) (last now : ℕ) (log : List ℕ)
    → Tracks g last log
    → last ≤ now
    → sum_slots 60 (slot_count g now) ≡ window_count now log
sum_slots-window_count g last now log w l =
    sum_slots-ext 60 (slot_count g now) (logged g now log) (λ i h. ground (arith, w.exact i h))
    ∙ sum-logged g now w.placed log (λ t h. (w.dated t h).0) (λ t h m. w.recent t h (omega arith))
