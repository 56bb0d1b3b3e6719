-- ===== src/Bridge/Manager.antt =====
-- go/internal/bridge/manager.go, CallManager: the indices of the calls and the snapshots of ended
-- ones. A *CallSession is a number, and `heap` holds what it points to, so that a change of a session
-- is seen through both indices. The gauge ActiveCalls is kept as its two counts, and `metrics` is set.
pub mod Ending
pub mod Cleanup
pub mod Kept
pub mod Listing
pub mod Drain
pub mod Examples
use sipgate_sip_stream_bridg.Prelude.{
  ℕ, zero, suc, ◌+◌, ◌-◌, ◌*◌, String, Bool, true, false, Option, none, some, List, [], ◌∷◌, ◌++◌,
  ltb, leb, ◌==◌, ◌||◌, ◌&&◌, not, str_eq, if◌then◌else◌, map, length,
}
use sipgate_sip_stream_bridg.Prelude.Dict.{Dict, load, store, delete}
use sipgate_sip_stream_bridg.Bridge.State.{
  State, dispatching, streaming, forwarding_setup, forwarding, redirected, hung_up, terminated,
  dialing_out,
}
use sipgate_sip_stream_bridg.Bridge.Call.{
  CallSession, StatusCallbackConfig, status, end_time, duration, set_status_callback, second,
}
use sipgate_sip_stream_bridg.Bridge.Call.Callback.{mark_terminated}
use sipgate_sip_stream_bridg.Bridge.Call.Lifecycle.{terminate}

-- terminatedCall; what its literal leaves out is "".
pub record Snapshot : Type 0 where
  pub call_sid : String
  pub account_sid : String
  pub from : String
  pub to : String
  pub direction : String
  pub status : String
  pub start_time : ℕ
  pub end_time : ℕ
  pub duration : ℕ

pub record CallManager : Type 0 where
  pub heap : ℕ → CallSession
  pub next : ℕ
  pub sessions : Dict ℕ
  pub call_sid_idx : Dict ℕ
  pub recently_terminated : Dict Snapshot
  pub incs : ℕ
  pub decs : ℕ
  -- The flag `cleaned` of the cleanup that belongs to a session.
  pub cleaned : ℕ → Bool
  pub has_status_client : Bool
  -- The operator's default subscription, its list of event names already split, trimmed, in lower
  -- case and without empty names.
  pub default_url : String
  pub default_method : String
  pub default_events : List String

unfoldable pub snapshot : CallSession → Snapshot
snapshot s = record {
  call_sid = s.call_sid;
  account_sid = s.account_sid;
  from = s.from;
  to = s.to;
  direction = "inbound";
  status = status s;
  start_time = s.start_time;
  end_time = end_time s;
  duration = duration s;
}

abbrev default_subscription : CallManager → Option StatusCallbackConfig
default_subscription m =
    if str_eq m.default_url ""
    then none
    else some (record {
      url = m.default_url;
      method = m.default_method;
      events = m.default_events;
      trusted = true;
    })

-- The shell of a session that PreRegisterSession builds.
unfoldable pub shell : CallManager → String → String → String → String → String → ℕ → CallSession
shell m call_sid call_id account_sid from to start = record {
  call_id = call_id;
  call_sid = call_sid;
  account_sid = account_sid;
  from = from;
  to = to;
  start_time = start;
  terminal = none;
  status_callback = default_subscription m;
  seq_counter = 0;
  answered_at = none;
  sip_final_code = 0;
  ever_emitted = false;
  has_status_client = m.has_status_client;
  enqueued = [];
  drained = [];
  state = streaming;
  legs = [];
  byes = [];
  session_cancelled = false;
  ws_cancelled = false;
  running = false;
  ws_actions = [];
  stream_closed = false;
  stop_reason = "";
  close_stream_once = false;
  terminate_once = false;
}

abbrev pub update {ℓ} : {A : Type ℓ} → (ℕ → A) → ℕ → A → ℕ → A
update f i v j = if j == i then v else f j

-- PreRegisterSession: the manager, and the new session.
unfoldable pub pre_register :
    String → String → String → String → String → ℕ → CallManager → CallManager × ℕ
pre_register call_sid call_id account_sid from to start m = (
  record m {
    heap = update m.heap m.next (shell m call_sid call_id account_sid from to start);
    next = suc m.next;
    sessions = store call_id m.next m.sessions;
    call_sid_idx = store call_sid m.next m.call_sid_idx;
    incs = suc m.incs;
    cleaned = update m.cleaned m.next false;
  },
  m.next,
)

-- `if session.EndTime().IsZero() { session.markTerminated("failed") }`
unfoldable pub mark_if_open : ℕ → CallSession → CallSession
mark_if_open now s = if end_time s == 0 then mark_terminated "failed" now s else s

-- The first half of an ending: the session is marked, and its snapshot stored.
unfoldable pub keep_snapshot : ℕ → ℕ → CallManager → CallManager
keep_snapshot now r m =
    let s = mark_if_open now (m.heap r) in
    record m {
      heap = update m.heap r s;
      recently_terminated = store s.call_sid (snapshot s) m.recently_terminated;
    }

-- The second half: the session leaves both indices.
unfoldable pub remove_session : String → ℕ → CallManager → CallManager
remove_session call_id r m = record m {
  sessions = delete call_id m.sessions;
  call_sid_idx = delete (m.heap r).call_sid m.call_sid_idx;
  decs = suc m.decs;
}

-- The deferred function of StartSessionWithPreRegistered.
unfoldable pub finish : ℕ → String → ℕ → CallManager → CallManager
finish now call_id r m = remove_session call_id r (keep_snapshot now r m)

-- The cleanup that PreRegisterSession returns.
unfoldable pub cleanup : ℕ → String → ℕ → CallManager → CallManager
cleanup now call_id r m =
    if m.cleaned r
    then m
    else let t = record m { cleaned = update m.cleaned r true } in
      remove_session call_id r (if (t.heap r).ever_emitted then keep_snapshot now r t else t)

-- GetByCallSid: the active session wins over a snapshot.
pub data BridgeCall : Type 0 where
  active : CallSession → BridgeCall
  ended : Snapshot → BridgeCall

abbrev or_ended : CallManager → String → Option ℕ → Option BridgeCall
or_ended m sid (some r) = some (active (m.heap r))
or_ended m sid none = elim (load sid m.recently_terminated) [
  | some t ↦ some (ended t)
  | none ↦ none
]

unfoldable pub get_by_call_sid : String → CallManager → Option BridgeCall
get_by_call_sid sid m = or_ended m sid (load sid m.call_sid_idx)

abbrev pub recently_terminated_ttl : ℕ
recently_terminated_ttl = 300 * second

-- The pass of sweepRecentlyTerminatedOnce.
unfoldable pub sweep_entries : ℕ → Dict Snapshot → Dict Snapshot
sweep_entries now [] = []
sweep_entries now ((k, t) ∷ rest) =
    let kept = sweep_entries now rest in
    if ltb recently_terminated_ttl (now - t.end_time) then kept else (k, t) ∷ kept

unfoldable pub sweep : ℕ → CallManager → CallManager
sweep now m = record m { recently_terminated = sweep_entries now m.recently_terminated }

-- List before it is sorted: the active calls, then the ended ones.
unfoldable pub collect : CallManager → List BridgeCall
collect m =
    map (λ (e : String × ℕ). active (m.heap e.1)) m.call_sid_idx
    ++ map (λ (e : String × Snapshot). ended e.1) m.recently_terminated

abbrev pub started : BridgeCall → ℕ
started (active s) = s.start_time
started (ended t) = t.start_time

unfoldable pub insert_by_start : BridgeCall → List BridgeCall → List BridgeCall
insert_by_start c [] = c ∷ []
insert_by_start c (d ∷ ds) =
    let rest = insert_by_start c ds in if ltb (started d) (started c) then c ∷ d ∷ ds else d ∷ rest

-- sort.Slice by falling start time; it leaves the order of equal times open, and this keeps it.
unfoldable pub sort_by_start : List BridgeCall → List BridgeCall
sort_by_start [] = []
sort_by_start (c ∷ cs) = insert_by_start c (sort_by_start cs)

unfoldable pub list_calls : CallManager → List BridgeCall
list_calls m = sort_by_start (collect m)

unfoldable pub active_count : CallManager → ℕ
active_count m = length m.sessions

abbrev is_forwarding : State → Bool
is_forwarding forwarding_setup = true
is_forwarding dialing_out = true
is_forwarding forwarding = true
is_forwarding _ = false

unfoldable pub count_forwards : (ℕ → CallSession) → Dict ℕ → ℕ
count_forwards heap [] = 0
count_forwards heap ((k, r) ∷ rest) =
    (if is_forwarding (heap r).state then 1 else 0) + count_forwards heap rest

unfoldable pub active_forward_count : CallManager → ℕ
active_forward_count m = count_forwards m.heap m.sessions

-- The loop of DrainAll that terminates every session. The poll that follows waits for `sessions` to
-- become empty.
unfoldable pub terminate_all : ℕ → Dict ℕ → (ℕ → CallSession) → (ℕ → CallSession)
terminate_all now [] heap = heap
terminate_all now ((k, r) ∷ rest) heap =
    terminate_all now rest
      (update heap r (terminate {E = Unit {0}} (λ d. none) "shutdown" now (heap r)).0)

unfoldable pub drain_all : ℕ → CallManager → CallManager
drain_all now m = record m { heap = terminate_all now m.sessions m.heap }
