-- ===== src/Sip/Registrar.antt =====
-- go/internal/sip/registrar.go: the registration of the bridge at its SIP registrar, and the keepalive
-- that watches it. A tick of a loop is one step; the mutex of the source covers the REGISTER of a tick,
-- and not the mark of its failure. The network is outside: a step gets the answers to its requests.
-- Times are nanoseconds; the gauge SIPRegStatus is a number.
pub mod Outcome
pub mod Status
pub mod Keepalive
pub mod Examples
use sipgate_sip_stream_bridg.Prelude.{
  ℕ, suc, ◌+◌, ◌*◌, ◌/◌, Bool, true, false, Option, none, some, ltb, leb, ◌==◌, ◌||◌, not, ◌⊎◌, inl,
  inr, if◌then◌else◌,
}

-- A response with its status and its Expires header as strconv.Atoi reads it, if it is a positive
-- number; or an error of the exchange, which has no response.
pub data Answer : Type 0 where
  response : ℕ → Option ℕ → Answer
  no_answer : Answer

pub data RegisterError : Type 0 where
  send_failed auth_failed forbidden : RegisterError
  refused : ℕ → RegisterError

pub record Registrar : Type 0 where
  pub expires : ℕ
  pub registered : Bool
  pub gauge : ℕ
  -- What reregisterLoop and optionsKeepaliveLoop keep.
  pub retry_in : ℕ
  pub consecutive_failures : ℕ
  pub options_failures : ℕ

abbrev pub second : ℕ
second = 1_000_000_000

-- The status of the answer to a REGISTER, where a challenge is followed by a second answer.
abbrev pub is_challenge : ℕ → Bool
is_challenge code = code == 401 || code == 407

abbrev pub positive_or : ℕ → Option ℕ → ℕ
positive_or n none = n
positive_or n (some v) = if ltb 0 v then v else n

-- doRegister from its last response on.
abbrev pub accept : ℕ → Option ℕ → Registrar → Registrar × (RegisterError ⊎ ℕ)
accept code header r =
    if code == 403
    then (r, inl forbidden)
    else if not (code == 200)
    then (r, inl (refused code))
    else (record r { registered = true; gauge = 1 }, inr (positive_or r.expires header * second))

abbrev pub authenticated : Answer → Registrar → Registrar × (RegisterError ⊎ ℕ)
authenticated no_answer r = (r, inl auth_failed)
authenticated (response code header) r = accept code header r

abbrev pub answered : Answer → Answer → Registrar → Registrar × (RegisterError ⊎ ℕ)
answered no_answer again r = (r, inl send_failed)
answered (response code header) again r =
    if is_challenge code then authenticated again r else accept code header r

unfoldable pub do_register : Answer → Answer → Registrar → Registrar × (RegisterError ⊎ ℕ)
do_register first again r = answered first again r

-- `r.registered.Store(false)` with its gauge.
abbrev pub lose : Registrar → Registrar
lose r = record r { registered = false; gauge = 0 }

-- 75% of an expiry; the product with 0.75 is exact for whole seconds.
abbrev pub retry_of : ℕ → ℕ
retry_of expiry = expiry * 3 / 4

abbrev pub registered_or : Registrar × (RegisterError ⊎ ℕ) → Registrar
registered_or (r, inl e) = lose r
registered_or (r, inr expiry) = record r { retry_in = retry_of expiry }

-- Register: on success the loops start, with the interval of the granted expiry.
abbrev start_loops : Registrar × (RegisterError ⊎ ℕ) → Registrar × Option RegisterError
start_loops (r, inl e) = (r, some e)
start_loops (r, inr expiry) =
    (record r { retry_in = retry_of expiry; consecutive_failures = 0 }, none)

unfoldable pub register : Answer → Answer → Registrar → Registrar × Option RegisterError
register first again r = start_loops (do_register first again r)

-- A tick of reregisterLoop; resetting the ticker to the same interval changes nothing.
unfoldable pub reregister_tick : Answer → Answer → Registrar → Registrar
reregister_tick first again r = registered_or (do_register first again r)

unfoldable pub is_options_failure : Answer → Bool
is_options_failure no_answer = true
is_options_failure (response code header) = code == 404 || leb 500 code

unfoldable pub is_options_auth : Answer → Bool
is_options_auth no_answer = false
is_options_auth (response code header) = is_challenge code

-- applyOptionsResponse: the new count, and whether to register.
unfoldable pub apply_options_response : ℕ → Answer → ℕ × Bool
apply_options_response failures a =
    if is_options_failure a
    then (if leb 2 (suc failures) then (0, true) else (suc failures, false))
    else if is_options_auth a
    then (0, false)
    else (0, false)

abbrev pub lose_on_error : Registrar × (RegisterError ⊎ ℕ) → Registrar
lose_on_error (r, inl e) = lose r
lose_on_error (r, inr expiry) = r

-- A tick of optionsKeepaliveLoop.
unfoldable pub options_tick : Answer → Answer → Answer → Registrar → Registrar
options_tick a first again r =
    let (count, trigger) = apply_options_response r.consecutive_failures a in
    let counted = record r {
      consecutive_failures = count;
      options_failures =
          if is_options_failure a then suc r.options_failures else r.options_failures;
    } in
    if trigger then lose_on_error (do_register first again counted) else counted

abbrev drop_binding : ℕ → Registrar → Registrar × Option RegisterError
drop_binding code r = if not (code == 200) then (r, some (refused code)) else (lose r, none)

abbrev drop_authenticated : Answer → Registrar → Registrar × Option RegisterError
drop_authenticated no_answer r = (r, some auth_failed)
drop_authenticated (response code header) r = drop_binding code r

abbrev drop_answered : Answer → Answer → Registrar → Registrar × Option RegisterError
drop_answered no_answer again r = (r, some send_failed)
drop_answered (response code header) again r =
    if is_challenge code then drop_authenticated again r else drop_binding code r

unfoldable pub unregister : Answer → Answer → Registrar → Registrar × Option RegisterError
unregister first again r = drop_answered first again r
