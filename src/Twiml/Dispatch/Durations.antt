-- ===== src/Twiml/Dispatch/Durations.antt =====
-- go/internal/twiml/verb_dial.go: the durations of a <Dial>.
use sipgate_sip_stream_bridg.Prelude.{ℕ, ◌*◌, ◌≤◌, ◌≡◌, ap, ◌∙◌, false, arith}
use sipgate_sip_stream_bridg.Prelude.Int.{pos, bits_times, is_negative}
use sipgate_sip_stream_bridg.Twiml.Verbs.{Dial}
use sipgate_sip_stream_bridg.Twiml.Dispatch.{int_ptr_or, dial_opts, second}

exact : (n : ℕ) → n ≤ 9_223_372_036 → bits_times (pos n) second ≡ n * second
unfolding bits_times
exact n h = omega arith

positive : (n : ℕ) → n ≤ 9_223_372_036 → is_negative (n * second) ≡ false
unfolding is_negative
positive n h = ground arith

-- A timeout and a time limit of at most 9223372036 seconds reach the call as so many seconds, and not as
-- a negative duration; without the attributes they are 30 seconds and 4 hours.
dial_opts-durations :
    (d : Dial) (n m : ℕ)
    → int_ptr_or d.timeout 30 ≡ pos n
    → int_ptr_or d.time_limit 14_400 ≡ pos m
    → n ≤ 9_223_372_036
    → m ≤ 9_223_372_036
    → ((dial_opts d).timeout ≡ n * second)
      × (is_negative (dial_opts d).timeout ≡ false)
      × ((dial_opts d).time_limit ≡ m * second)
      × (is_negative (dial_opts d).time_limit ≡ false)
unfolding dial_opts
dial_opts-durations d n m timeout limit hn hm =
    let t : (dial_opts d).timeout ≡ n * second =
      ap (λ k. bits_times k second) timeout ∙ exact n hn in
    let l : (dial_opts d).time_limit ≡ m * second =
      ap (λ k. bits_times k second) limit ∙ exact m hm in
    (t, ap is_negative t ∙ positive n hn, l, ap is_negative l ∙ positive m hm)
