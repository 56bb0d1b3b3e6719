-- ===== src/Sip/Registrar/Outcome.antt =====
-- The outcome of a REGISTER in registrar.go, and what the loops do with it.
use sipgate_sip_stream_bridg.Prelude.{
  ℕ, suc, ◌*◌, ◌/◌, ◌≡◌, ◌≢◌, refl, Bool, true, false, Option, inl, inr, arith, ◌==◌, if◌then◌else◌,
  Bool-cases, ap,
}
use sipgate_sip_stream_bridg.Sip.Registrar.{
  Answer, response, no_answer, Registrar, do_register, reregister_tick, is_challenge, positive_or,
  second, answered, options_tick, apply_options_response, is_options_failure, lose, accept,
  authenticated, registered_or, lose_on_error,
}

-- The answer that decides: the first, or after a challenge the second.
abbrev pub deciding : Answer → Answer → Answer
deciding (response code header) again = if is_challenge code then again else response code header
deciding no_answer again = no_answer

other : (code : ℕ) → code ≢ 200 → (code == 200) ≡ false
other code h = ground arith

accept_other :
    (code : ℕ) (header : Option ℕ) (r : Registrar)
    → code ≢ 200
    → ((accept code header r).0 ≡ r) × (registered_or (accept code header r) ≡ lose r)
accept_other code header r h = elim (Bool-cases (code == 403)) [
  | inl e ↦ rw e (refl, refl)
  | inr e ↦ rw (e, other code h) (refl, refl)
]

authenticated_other :
    (again : Answer) (r : Registrar)
    → ((header : Option ℕ) → again ≢ response 200 header)
    → ((authenticated again r).0 ≡ r) × (registered_or (authenticated again r) ≡ lose r)
authenticated_other no_answer r h = (refl, refl)
authenticated_other (response code header) r h =
    accept_other code header r (λ e. h header (ap (λ c. response c header) e))

authenticated_granted :
    (again : Answer) (header : Option ℕ) (r : Registrar)
    → again ≡ response 200 header
    → authenticated again r
      ≡ (record r { registered = true; gauge = 1 }, inr (positive_or r.expires header * second))
authenticated_granted again header r e = rw e refl

chosen_true : (b : Bool) (x y : Answer) {z : Answer} → b ≡ true → (if b then x else y) ≡ z → x ≡ z
chosen_true true x y k e = e
chosen_true false x y k e = cc

chosen_false : (b : Bool) (x y : Answer) {z : Answer} → b ≡ false → (if b then x else y) ≡ z → y ≡ z
chosen_false true x y k e = cc
chosen_false false x y k e = e

answered_granted :
    (first again : Answer) (header : Option ℕ) (r : Registrar)
    → deciding first again ≡ response 200 header
    → answered first again r
      ≡ (record r { registered = true; gauge = 1 }, inr (positive_or r.expires header * second))
answered_granted (response code h) again header r e = elim (Bool-cases (is_challenge code)) [
  | inl k ↦ rw k (
      authenticated_granted again header r
        (chosen_true (is_challenge code) again (response code h) k e))
  | inr k ↦ rw k (
      authenticated_granted (response code h) header r
        (chosen_false (is_challenge code) again (response code h) k e))
]
answered_granted no_answer again header r e = cc

answered_other :
    (first again : Answer) (r : Registrar)
    → ((header : Option ℕ) → deciding first again ≢ response 200 header)
    → ((answered first again r).0 ≡ r) × (registered_or (answered first again r) ≡ lose r)
answered_other (response code h) again r e = elim (Bool-cases (is_challenge code)) [
  | inl k ↦ rw k (authenticated_other again r (λ header q. e header (rw k q)))
  | inr k ↦ rw k (authenticated_other (response code h) r (λ header q. e header (rw k q)))
]
answered_other no_answer again r e = (refl, refl)

answered_keeps :
    (first again : Answer) (r : Registrar)
    → (lose_on_error (answered first again r)).retry_in ≡ r.retry_in
answered_keeps first again r = ground arith

-- A REGISTER whose deciding answer is a 200 registers, and grants the seconds of its Expires header or
-- else the configured ones; the loop then waits 75% of that.
do_register_granted :
    (first again : Answer) (header : Option ℕ) (r : Registrar)
    → deciding first again ≡ response 200 header
    → let granted = positive_or r.expires header * second in
      (do_register first again r ≡ (record r { registered = true; gauge = 1 }, inr granted))
      × ((reregister_tick first again r).retry_in ≡ granted * 3 / 4)
unfolding do_register reregister_tick
do_register_granted first again header r e =
    let k = answered_granted first again header r e in (k, ap (λ p. (registered_or p).retry_in) k)

-- A REGISTER whose deciding answer is missing or is no 200 changes nothing by itself, and the loop
-- that sent it marks the bridge as not registered and keeps its interval.
pub do_register_refused :
    (first again : Answer) (r : Registrar)
    → ((header : Option ℕ) → deciding first again ≢ response 200 header)
    → ((do_register first again r).0 ≡ r)
      × ((reregister_tick first again r) ≡ record r { registered = false; gauge = 0 })
unfolding do_register reregister_tick
do_register_refused first again r h = answered_other first again r h

-- The keepalive never changes the interval of the re-registration, whatever expiry a registration that
-- it triggers is granted.
pub options_tick-retry_in :
    (a first again : Answer) (r : Registrar) → (options_tick a first again r).retry_in ≡ r.retry_in
unfolding options_tick do_register
options_tick-retry_in a first again r =
    let counted = record r {
      consecutive_failures = (apply_options_response r.consecutive_failures a).0;
      options_failures =
          if is_options_failure a then suc r.options_failures else r.options_failures;
    } in
    elim (Bool-cases (apply_options_response r.consecutive_failures a).1) [
      | inl e ↦ rw e (answered_keeps first again counted)
      | inr e ↦ rw e refl
    ]
