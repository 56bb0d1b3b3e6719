-- ===== src/Webhook/Status.antt =====
-- go/internal/webhook/status.go, StatusClient: a queue and a worker for each call. A *perCallState is
-- a number, and `heap` holds what it points to; the network answers through the parameter `reply`,
-- which gives the result of the n-th attempt. The counters of the metrics are the lists of labels
-- that they were incremented under. A panic is `none`.
pub mod Retries
pub mod Queue
pub mod Closed
use sipgate_sip_stream_bridg.Prelude.{
  ℕ, suc, ◌+◌, ◌*◌, String, Bool, true, false, Option, none, some, List, [], ◌∷◌, ◌++◌, ltb, leb,
  ◌==◌, ◌&&◌, ◌||◌, not, str_eq, if◌then◌else◌, length,
}
use sipgate_sip_stream_bridg.Prelude.Dict.{Dict, load, store, delete}
use sipgate_sip_stream_bridg.Webhook.Event.{CallbackEvent}
use sipgate_sip_stream_bridg.Webhook.Ssrf.{Url, UrlError, empty_url, validate_callback_url}

abbrev pub per_call_queue_depth : ℕ
per_call_queue_depth = 64

abbrev pub second : ℕ
second = 1_000_000_000

abbrev pub status_per_attempt_timeout : ℕ
status_per_attempt_timeout = 4 * second

abbrev pub status_drain_budget : ℕ
status_drain_budget = 30 * second

abbrev pub status_backoffs : List ℕ
status_backoffs = 0 ∷ second ∷ 2 * second ∷ 4 * second ∷ []

-- What deliverOnce returns: a status, or an error with whether it wraps ErrSSRFRejected and the reason
-- that BucketStatusCallbackReason gives it.
pub data Reply : Type 0 where
  answered : ℕ → Reply
  failed : Bool → String → Reply

unfoldable pub is_success : Reply → Bool
is_success (answered status) = leb 200 status && ltb status 300
is_success (failed ssrf reason) = false

unfoldable pub should_retry : Reply → Bool
should_retry (failed ssrf reason) = not ssrf
should_retry (answered status) =
    if status == 408 || status == 429 then true else if leb 500 status then true else false

-- BucketStatusCallbackReason of a reply that is no success; "" is not recorded.
unfoldable pub bucket_reason : Reply → String
bucket_reason (failed ssrf reason) = reason
bucket_reason (answered status) =
    if leb 500 status then "5xx" else if leb 400 status then "4xx" else ""

abbrev pub label : String → List String
label reason = if str_eq reason "" then [] else reason ∷ []

-- What a delivery did: its attempts, the time it slept, and the failures it recorded.
pub record Delivery : Type 0 where
  pub delivered : Bool
  pub attempts : ℕ
  pub slept : ℕ
  pub failures : List String

-- The loop of deliverWithRetries over the backoffs that are left, with the replies that are left.
unfoldable pub deliver_loop : (ℕ → Reply) → List ℕ → Delivery
deliver_loop reply [] = record {
  delivered = false;
  attempts = 0;
  slept = 0;
  failures = "exhausted_retries" ∷ [];
}
deliver_loop reply (d ∷ ds) =
    let rest = deliver_loop (λ n. reply (suc n)) ds in
    if is_success (reply 0)
    then record { delivered = true; attempts = 1; slept = d; failures = [] }
    else if not (should_retry (reply 0))
    then record {
      delivered = false;
      attempts = 1;
      slept = d;
      failures = label (bucket_reason (reply 0));
    }
    else record rest { attempts = suc rest.attempts; slept = d + rest.slept }

unfoldable pub deliver_with_retries : (ℕ → Reply) → Delivery
deliver_with_retries reply = deliver_loop reply status_backoffs

pub record PerCallState : Type 0 where
  pub queue : List CallbackEvent
  -- The channel is closed.
  pub closed : Bool
  -- The worker has been started.
  pub once : Bool
  -- The jobs that the worker has taken, in order.
  pub taken : List CallbackEvent

pub record StatusClient : Type 0 where
  pub heap : ℕ → PerCallState
  pub next : ℕ
  pub per_call : Dict ℕ
  pub skip_validate_url : Bool
  pub failures : List String

pub data EnqueueError : Type 0 where
  no_call_sid queue_full : EnqueueError
  url_error : UrlError → EnqueueError

abbrev pub put : ℕ → PerCallState → (ℕ → PerCallState) → ℕ → PerCallState
put r st heap j = if j == r then st else heap j

abbrev empty_state : PerCallState
empty_state = record { queue = []; closed = false; once = false; taken = [] }

-- getOrCreateState, without the race of two creators, whose loser takes the winner's state.
abbrev pub create_state : String → Option ℕ → StatusClient → StatusClient × ℕ
create_state sid (some r) c = (c, r)
create_state sid none c = (
  record c {
    heap = put c.next empty_state c.heap;
    next = suc c.next;
    per_call = store sid c.next c.per_call;
  },
  c.next,
)

unfoldable pub get_or_create_state : String → StatusClient → StatusClient × ℕ
get_or_create_state sid c = create_state sid (load sid c.per_call) c

-- The select of Enqueue on the state it has got. A send on a closed channel panics.
unfoldable pub send : ℕ → CallbackEvent → StatusClient → Option (StatusClient × Option EnqueueError)
send r evt c =
    let st = c.heap r in
    if st.closed
    then none
    else if ltb (length st.queue) per_call_queue_depth
    then some (
      record c { heap = put r (record st { queue = st.queue ++ evt ∷ []; once = true }) c.heap },
      none,
    )
    else some (record c { failures = c.failures ++ "queue_full" ∷ [] }, some queue_full)

-- The checks of Enqueue before it looks for the state.
unfoldable pub check_event :
    (String → Option Url) → String → CallbackEvent → StatusClient → Option EnqueueError
check_event parse sid evt c =
    if str_eq sid ""
    then some no_call_sid
    else if not c.skip_validate_url && not evt.trusted
    then elim (validate_callback_url parse evt.url) [ some e ↦ some (url_error e) | none ↦ none ]
    else if str_eq evt.url ""
    then some (url_error empty_url)
    else none

abbrev pub with_method : CallbackEvent → CallbackEvent
with_method evt = if str_eq evt.method "" then record evt { method = "POST" } else evt

unfoldable pub enqueue :
    (String → Option Url)
    → String
    → CallbackEvent
    → StatusClient
    → Option (StatusClient × Option EnqueueError)
enqueue parse sid evt c = elim (check_event parse sid evt c) [
  | some e ↦ some (c, some e)
  | none ↦ let (c', r) = get_or_create_state sid c in send r (with_method evt) c'
]

-- runWorker takes the next job, once it is started: whether it took one.
abbrev taken_job : ℕ → PerCallState → StatusClient → List CallbackEvent → StatusClient
taken_job r st c [] = c
taken_job r st c (e ∷ es) = record c {
  heap = put r (record st { queue = es; taken = st.taken ++ e ∷ [] }) c.heap;
}

-- A turn of runWorker: `taken` has the jobs that it has handed to deliverWithRetries, whose outcome is
-- deliver_with_retries.
unfoldable pub work : ℕ → StatusClient → StatusClient
work r c = if (c.heap r).once then taken_job r (c.heap r) c (c.heap r).queue else c

-- runWorker has nothing left to wait for, so that it closes `done`.
unfoldable pub is_done : PerCallState → Bool
is_done st = st.closed && st.once && length st.queue == 0

-- DrainAndClose up to its wait for the worker.
abbrev close_state : String → Option ℕ → StatusClient → StatusClient
close_state sid none c = c
close_state sid (some r) c = record c {
  per_call = delete sid c.per_call;
  heap = put r (record (c.heap r) { closed = true }) c.heap;
}

unfoldable pub drain_and_close : String → StatusClient → StatusClient
drain_and_close sid c = close_state sid (load sid c.per_call) c
