-- ===== src/Webhook/Status/Retries.antt =====
-- The retries of status.go, deliverWithRetries.
use sipgate_sip_stream_bridg.Prelude.{
  ℕ, zero, suc, ◌+◌, ◌*◌, ◌≤◌, ◌<◌, ◌≡◌, refl, true, false, List, [], ◌∷◌, ◌⊎◌, arith,
  if◌then◌else◌, length, take,
}
use sipgate_sip_stream_bridg.Webhook.Status.{
  Reply, is_success, should_retry, bucket_reason, label, Delivery, deliver_loop,
  deliver_with_retries, status_backoffs, status_per_attempt_timeout, status_drain_budget,
}

-- A reply after which the worker tries again.
abbrev pub IsTransient : Reply → Type 0
IsTransient r = (is_success r ≡ false) × (should_retry r ≡ true)

-- A reply after which it does not.
abbrev pub IsFinal : Reply → Type 0
IsFinal r = (is_success r ≡ true) ⊎ (should_retry r ≡ false)

abbrev pub sum : List ℕ → ℕ
sum [] = 0
sum (d ∷ ds) = d + sum ds

-- What a delivery that stops at a reply reports.
pub record StopsAt (reply : ℕ → Reply) (i : ℕ) (ds : List ℕ) (d : Delivery) : Type 0 where
  pub delivered : d.delivered ≡ is_success (reply i)
  pub attempts : d.attempts ≡ suc i
  pub slept : d.slept ≡ sum (take (suc i) ds)
  pub failures : d.failures ≡ (if is_success (reply i) then [] else label (bucket_reason (reply i)))

loop-stops :
    (reply : ℕ → Reply) (i : ℕ) (ds : List ℕ)
    → i < length ds
    → ((j : ℕ) → j < i → IsTransient (reply j))
    → IsFinal (reply i)
    → StopsAt reply i ds (deliver_loop reply ds)
unfolding deliver_loop
loop-stops reply i [] h before last = ground arith
loop-stops reply zero (d ∷ ds) h before last = ground arith
loop-stops reply (suc i) (d ∷ ds) h before last =
    let (fails, retry) = before 0 (omega arith) in
    let k =
      loop-stops (λ n. reply (suc n)) i ds (omega arith) (λ j q. before (suc j) (omega arith))
        last in
    ground (arith, k.delivered, k.attempts, k.slept, k.failures)

loop-exhausts :
    (reply : ℕ → Reply) (ds : List ℕ)
    → ((j : ℕ) → j < length ds → IsTransient (reply j))
    → let d = deliver_loop reply ds in
      (d.delivered ≡ false)
      × (d.attempts ≡ length ds)
      × (d.slept ≡ sum ds)
      × (d.failures ≡ "exhausted_retries" ∷ [])
unfolding deliver_loop
loop-exhausts reply [] before = (refl, refl, refl, refl)
loop-exhausts reply (d ∷ ds) before =
    let (fails, retry) = before 0 (omega arith) in
    let k = loop-exhausts (λ n. reply (suc n)) ds (λ j q. before (suc j) (omega arith)) in
    ground (arith, k)

-- A delivery whose first reply that is no reason to retry is that of attempt i, counted from 0 and
-- below 4, makes the attempts up to it, with their backoffs before each, is delivered exactly if that
-- reply is a success, and records nothing on success and otherwise the bucket of the reply, if any.
pub deliver_with_retries_stops :
    (reply : ℕ → Reply) (i : ℕ)
    → i < 4
    → ((j : ℕ) → j < i → IsTransient (reply j))
    → IsFinal (reply i)
    → StopsAt reply i status_backoffs (deliver_with_retries reply)
unfolding deliver_with_retries
deliver_with_retries_stops reply i h before last = loop-stops reply i status_backoffs h before last

-- Four replies that ask for a retry exhaust a delivery: it makes 4 attempts, sleeps 7 seconds, is not
-- delivered and records exhausted_retries.
pub deliver_with_retries_exhausts :
    (reply : ℕ → Reply)
    → ((j : ℕ) → j < 4 → IsTransient (reply j))
    → let d = deliver_with_retries reply in
      (d.delivered ≡ false)
      × (d.attempts ≡ 4)
      × (d.slept ≡ 7_000_000_000)
      × (d.failures ≡ "exhausted_retries" ∷ [])
unfolding deliver_with_retries
deliver_with_retries_exhausts reply before = loop-exhausts reply status_backoffs before

loop-bounded :
    (reply : ℕ → Reply) (ds : List ℕ)
    → let d = deliver_loop reply ds in (d.attempts ≤ length ds) × (d.slept ≤ sum ds)
unfolding deliver_loop
loop-bounded reply [] = (omega arith, omega arith)
loop-bounded reply (d ∷ ds) = ground (arith, loop-bounded (λ n. reply (suc n)) ds)

-- Whatever the network answers, the time that one delivery sleeps and that its attempts take, each up
-- to its timeout, is within the budget of DrainAndClose, with 7 seconds to spare.
deliver_with_retries_budget :
    (reply : ℕ → Reply)
    → let d = deliver_with_retries reply in
      d.slept + d.attempts * status_per_attempt_timeout + 7_000_000_000 ≤ status_drain_budget
unfolding deliver_with_retries
deliver_with_retries_budget reply = omega (arith, loop-bounded reply status_backoffs)
