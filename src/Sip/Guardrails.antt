-- ===== src/Sip/Guardrails.antt =====
-- go/internal/sip/guardrails.go: the allow-list and the rate limits that each <Dial> passes before
-- an INVITE is built. Time is an argument, in Unix seconds. A counter is an int32 in the source; it
-- never passes its limit, which is one, so that it is a number here.
pub mod Target
pub mod Denied
pub mod Sums
pub mod Window
pub mod Rolling
pub mod History
pub mod Examples
use sipgate_sip_stream_bridg.Prelude.{
  ℕ, zero, suc, ◌+◌, ◌-◌, ◌%◌, ◌<◌, String, Bool, true, false, not, Option, none, some, List, [],
  ◌∷◌, ◌++◌, ltb, leb, ◌==◌, ◌||◌, if◌then◌else◌, length, replicate, drop,
}
use sipgate_sip_stream_bridg.Prelude.Text.{
  Text, codes, to_lower, trim_space, trim_prefix, starts_with, remove_if,
}
use sipgate_sip_stream_bridg.Prelude.Dict.{Dict, load, store, delete}

pub data DialError : Type 0 where
  toll_fraud_blocked : Text → DialError
  session_rate_limit global_rate_limit : DialError

pub record Guardrails : Type 0 where
  pub allowed_prefixes : List Text
  pub max_per_session : ℕ
  pub max_per_minute : ℕ
  pub per_session : Dict ℕ
  -- The arrays of 60 slots, by index.
  pub bucket_counts : ℕ → ℕ
  pub bucket_secs : ℕ → ℕ

-- The limits of a configuration below 2^31, which int32 keeps as they are.
unfoldable pub new_guardrails : List Text → ℕ → ℕ → Guardrails
new_guardrails prefixes per_session per_minute = record {
  allowed_prefixes = prefixes;
  max_per_session = per_session;
  max_per_minute = per_minute;
  per_session = [];
  bucket_counts = λ i. 0;
  bucket_secs = λ i. 0;
}

abbrev is_blank : ℕ → Bool
is_blank c = c == 32 || c == 9

-- "00..." becomes "+...".
abbrev international : Text → Text
international t = if starts_with (codes "00") t then b'+' ∷ drop 2 t else t

unfoldable pub normalize_target : Text → Text
normalize_target target =
    let t =
      trim_prefix (codes "sip:") (trim_prefix (codes "tel:") (to_lower (trim_space target))) in
    international (remove_if is_blank t)

-- The loop over the prefixes; without any the answer is `false`.
unfoldable pub match_allow_list : List Text → Text → Bool
match_allow_list [] target = false
match_allow_list (p ∷ ps) target = starts_with p target || match_allow_list ps target

-- The last four codes stay readable.
unfoldable pub mask_target : Text → Text
mask_target t =
    let n = length t in
    if leb n 4 then replicate n b'*' else replicate (n - 4) b'*' ++ drop (n - 4) t

-- The counter of a session, 0 where it is not there yet.
unfoldable pub session_count : Guardrails → String → ℕ
session_count g sid = elim (load sid g.per_session) [ none ↦ 0 | some n ↦ n ]

-- atomic.AddInt32 and the rollback write the counter of one session.
unfoldable pub set_session_count : String → ℕ → Guardrails → Guardrails
set_session_count sid n g = record g { per_session = store sid n g.per_session }

abbrev pub update : (ℕ → ℕ) → ℕ → ℕ → ℕ → ℕ
update f i v j = if j == i then v else f j

-- `for i := 0; i < n; i++ { if now-bucketSecs[i] < 60 { sum += bucketCounts[i] } }`. On the
-- natural numbers a slot from the future counts as well, as it does in the source.
abbrev pub slot_count : Guardrails → ℕ → ℕ → ℕ
slot_count g now i = if ltb (now - g.bucket_secs i) 60 then g.bucket_counts i else 0

unfoldable pub sum_slots : ℕ → (ℕ → ℕ) → ℕ
sum_slots zero f = 0
sum_slots (suc n) f = sum_slots n f + f n

-- A slot from a previous minute is reset.
unfoldable pub reset_slot : ℕ → Guardrails → Guardrails
reset_slot now g = if g.bucket_secs (now % 60) == now then g else record g {
  bucket_counts = update g.bucket_counts (now % 60) 0;
  bucket_secs = update g.bucket_secs (now % 60) now;
}

unfoldable pub increment_slot : ℕ → Guardrails → Guardrails
increment_slot now g = record g {
  bucket_counts = update g.bucket_counts (now % 60) (g.bucket_counts (now % 60) + 1);
}

unfoldable pub check_and_increment_global : ℕ → Guardrails → Guardrails × Bool
check_and_increment_global now g =
    let h = reset_slot now g in
    if leb h.max_per_minute (sum_slots 60 (slot_count h now))
    then (h, false)
    else (increment_slot now h, true)

-- The two rollbacks write the counter that was read.
unfoldable pub global_or_rollback : String → ℕ → Guardrails × Bool → Guardrails × Option DialError
global_or_rollback sid n (g, true) = (g, none)
global_or_rollback sid n (g, false) = (set_session_count sid n g, some global_rate_limit)

unfoldable pub check_dial : ℕ → String → Text → Guardrails → Guardrails × Option DialError
check_dial now sid target g =
    let t = normalize_target target in
    let n = session_count g sid in
    if not (match_allow_list g.allowed_prefixes t)
    then (g, some (toll_fraud_blocked (mask_target t)))
    else if ltb g.max_per_session (n + 1)
    then (set_session_count sid n (set_session_count sid (n + 1) g), some session_rate_limit)
    else global_or_rollback sid n (check_and_increment_global now (set_session_count sid (n + 1) g))

pub on_session_end : String → Guardrails → Guardrails
on_session_end sid g = record g { per_session = delete sid g.per_session }
