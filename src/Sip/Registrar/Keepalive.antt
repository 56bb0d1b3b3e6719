-- ===== src/Sip/Registrar/Keepalive.antt =====
-- The failures that optionsKeepaliveLoop of registrar.go counts.
use sipgate_sip_stream_bridg.Prelude.{
  ℕ, suc, ◌+◌, ◌%◌, ◌≡◌, refl, false, List, [], ◌∷◌, ◌⊎◌, inl, inr, arith, if◌then◌else◌,
  Bool-cases, ◌==◌, ◌∙◌, ap,
}
use sipgate_sip_stream_bridg.Sip.Registrar.{Answer, apply_options_response, is_options_failure}

-- The counter after a list of answers, and how often a registration was triggered.
unfoldable pub probe : ℕ → List Answer → ℕ × ℕ
probe count [] = (count, 0)
probe count (a ∷ answers) =
    let (next, trigger) = apply_options_response count a in
    let (last, triggers) = probe next answers in (last, (if trigger then 1 else 0) + triggers)

-- The spec: the failures in a row up to now, and the registrations that every second one is.
abbrev pub streak : ℕ → List Answer → ℕ
streak n [] = n
streak n (a ∷ answers) = if is_options_failure a then streak (suc n) answers else streak 0 answers

abbrev pub every_second : ℕ → List Answer → ℕ
every_second n [] = 0
every_second n (a ∷ answers) =
    if is_options_failure a
    then (if suc n % 2 == 0 then 1 else 0) + every_second (suc n) answers
    else every_second 0 answers

even_or_odd : (n : ℕ) → ((n % 2 ≡ 0) × (suc n % 2 ≡ 1)) ⊎ ((n % 2 ≡ 1) × (suc n % 2 ≡ 0))
even_or_odd n = ground arith

apply_parity :
    (n : ℕ) (a : Answer)
    → apply_options_response (n % 2) a
      ≡ (if is_options_failure a then (suc n % 2, suc n % 2 == 0) else (0, false))
unfolding apply_options_response
apply_parity n a = ground (arith, even_or_odd n)

probe-streak :
    (answers : List Answer) (n : ℕ)
    → probe (n % 2) answers ≡ (streak n answers % 2, every_second n answers)
unfolding probe
probe-streak [] n = refl
probe-streak (a ∷ answers) n = elim (Bool-cases (is_options_failure a)) [
  | inl e ↦
      let k : apply_options_response (n % 2) a ≡ (suc n % 2, suc n % 2 == 0) =
        apply_parity n a ∙ rw e refl in
      rw (k, e, probe-streak answers (suc n)) refl
  | inr e ↦
      let k : apply_options_response (n % 2) a ≡ (0, false) = apply_parity n a ∙ rw e refl in
      rw (k, e, probe-streak answers 0) (ap (λ (i : ℕ). (streak 0 answers % 2, i)) (omega arith))
]

-- Counted from no failure, the keepalive triggers a registration at exactly every second of the failures
-- in a row, any other answer starts the row anew, and its counter is the length of the row modulo 2.
pub probe_lem :
    (answers : List Answer) → probe 0 answers ≡ (streak 0 answers % 2, every_second 0 answers)
probe_lem answers = probe-streak answers 0
