-- ===== src/Webhook/Examples.antt =====
-- Tests of go/internal/webhook.
use sipgate_sip_stream_bridg.Prelude.{
  ℕ, zero, suc, ◌+◌, ◌≤◌, ◌<◌, ◌≡◌, inl, refl, String, true, false, Option, none, some, List, [],
  ◌∷◌, ◌++◌, arith, All, length,
}
use sipgate_sip_stream_bridg.Prelude.Text.{codes}
use sipgate_sip_stream_bridg.Prelude.Dict.{load}
use sipgate_sip_stream_bridg.Webhook.Event.{CallbackEvent}
use sipgate_sip_stream_bridg.Webhook.Ssrf.{
  Ip, v4, is_blocked_ip, Url, dial_context, dials, any_blocked, is_blocked_4, to_4, is_loopback,
  is_private, is_link_local_unicast, is_link_local_multicast, is_unspecified, is_multicast,
  in_blocked_extra_cidrs,
}
use sipgate_sip_stream_bridg.Webhook.Ssrf.Blocked.{
  number_of, blocked_ranges, within, is_blocked_ip_lem,
}
use sipgate_sip_stream_bridg.Webhook.Ssrf.Dialled.{dial_context_lem}
use sipgate_sip_stream_bridg.Webhook.Status.{
  Reply, answered, failed, deliver_with_retries, status_backoffs, PerCallState, StatusClient,
  per_call_queue_depth, get_or_create_state, send, drain_and_close, is_done, with_method,
  is_success, should_retry,
}
use sipgate_sip_stream_bridg.Webhook.Status.Retries.{StopsAt, deliver_with_retries_stops}
use sipgate_sip_stream_bridg.Webhook.Status.Queue.{
  offers, works as takes, moves, handed, moves_fifo,
}
use sipgate_sip_stream_bridg.Webhook.Status.Closed.{
  works, drain_and_close_lem, send-drain_and_close,
}

is_blocked_ip_example : is_blocked_ip (v4 172 31 0 9) ≡ within (number_of 172 31 0 9) blocked_ranges
is_blocked_ip_example =
    is_blocked_ip_lem 172 31 0 9 (omega arith, omega arith, omega arith, omega arith)

abbrev split : String → Option (String × String)
split addr = some ("example.com", "443")

-- A name that is rebound to a private address after its first lookup.
abbrev lookup : ℕ → String → Option (List Ip)
lookup zero host = some (v4 93 184 215 14 ∷ v4 93 184 215 15 ∷ [])
lookup (suc n) host = some (v4 10 0 0 1 ∷ [])

dials_first : (dial_context split lookup "example.com:443" 0).0 ≡ dials (v4 93 184 215 14) "443"
unfolding dial_context any_blocked is_blocked_ip to_4 is_blocked_4 is_loopback is_private
    is_link_local_unicast is_link_local_multicast is_unspecified is_multicast in_blocked_extra_cidrs
dials_first = refl

dial_context_example :
    ((dial_context split lookup "example.com:443" 0).1 ≡ 0 + 1)
    × (host : String) × (rest : List Ip) × (split "example.com:443" ≡ some (host, "443"))
    × (lookup 0 host ≡ some (v4 93 184 215 14 ∷ rest))
    × All (λ i. is_blocked_ip i ≡ false) (v4 93 184 215 14 ∷ rest)
dial_context_example =
    dial_context_lem split lookup "example.com:443" "443" 0 (v4 93 184 215 14) dials_first

abbrev parse : String → Option Url
parse u =
    some (record { scheme = codes "HTTPS"; hostname = codes "127.0.0.1"; ip = some (v4 127 0 0 1) })

-- A host that is down for one attempt, and one that stays down.
abbrev flapping : ℕ → Reply
flapping zero = failed false "timeout"
flapping (suc n) = answered 204

abbrev down : ℕ → Reply
down n = answered 503

flapping_last : is_success (flapping 1) ≡ true
unfolding is_success
flapping_last = refl

flapping_before :
    (j : ℕ) → j < 1 → (is_success (flapping j) ≡ false) × (should_retry (flapping j) ≡ true)
unfolding is_success should_retry
flapping_before zero h = (refl, refl)
flapping_before (suc j) h = absurd (omega arith)

deliver_with_retries_stops_example :
    StopsAt flapping 1 status_backoffs (deliver_with_retries flapping)
deliver_with_retries_stops_example =
    deliver_with_retries_stops flapping 1 (omega arith) flapping_before (inl flapping_last)

abbrev event_named : String → CallbackEvent
event_named name = record {
  url = "https://example.com/cb";
  method = "";
  form = [];
  event = name;
  trusted = false;
}

-- A client with one call, whose worker is started and whose queue holds one event.
abbrev one_call : PerCallState
one_call = record { queue = event_named "ringing" ∷ []; closed = false; once = true; taken = [] }

abbrev client : StatusClient
client = record {
  heap = λ r. one_call;
  next = 1;
  per_call = ("CA1", 0) ∷ [];
  skip_validate_url = false;
  failures = [];
}

moves_fifo_example :
    let (t, accepted) =
      moves 0
        (offers (event_named "answered") ∷ takes ∷ offers (event_named "completed") ∷ [])
        client in
    (handed (t.heap 0) ≡ handed one_call ++ accepted)
    × (length (t.heap 0).queue ≤ per_call_queue_depth)
moves_fifo_example =
    moves_fifo 0 (offers (event_named "answered") ∷ takes ∷ offers (event_named "completed") ∷ [])
      client (omega arith)

found_call : load "CA1" client.per_call ≡ some 0
unfolding load
found_call = refl

drain_and_close_example :
    let d = drain_and_close "CA1" client in
    let st = (works 1 0 d).heap 0 in
    (load "CA1" d.per_call ≡ none) × (st.taken ≡ event_named "ringing" ∷ []) × (is_done st ≡ true)
drain_and_close_example = drain_and_close_lem "CA1" 0 client found_call refl

send-drain_and_close_example :
    let (c', r) = get_or_create_state "CA1" client in
    send r (with_method (event_named "answered")) (drain_and_close "CA1" c') ≡ none
send-drain_and_close_example = send-drain_and_close parse "CA1" (event_named "answered") client
