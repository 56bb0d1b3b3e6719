-- ===== src/Bridge/Manager/Examples.antt =====
-- Tests of CallManager of go/internal/bridge/manager.go.
use sipgate_sip_stream_bridg.Prelude.{
  ℕ, List, ◌+◌, arith, ◌*◌, ◌≡◌, inl, refl, String, true, false, none, some, [], ◌∷◌,
}
use sipgate_sip_stream_bridg.Prelude.Dict.{load}
use sipgate_sip_stream_bridg.Bridge.State.{streaming}
use sipgate_sip_stream_bridg.Bridge.Call.{CallSession, second, end_time, swap_final_code}
use sipgate_sip_stream_bridg.Bridge.Call.Callback.{
  mark_terminated, stamp_terminated, emit_terminal_status_callback,
}
use sipgate_sip_stream_bridg.Bridge.Call.Examples.{inbound}
use sipgate_sip_stream_bridg.Bridge.Call.Byes.{pending}
use sipgate_sip_stream_bridg.Bridge.Manager.{
  CallManager, snapshot, mark_if_open, finish, ended, get_by_call_sid, sweep, list_calls, drain_all,
}
use sipgate_sip_stream_bridg.Bridge.Manager.Ending.{finish_found}
use sipgate_sip_stream_bridg.Bridge.Manager.Kept.{sweep_all, finish_kept}
use sipgate_sip_stream_bridg.Bridge.Manager.Listing.{
  times, IsFalling, active_times, ended_times, list_calls_lem,
}
use sipgate_sip_stream_bridg.Bridge.Manager.Drain.{IsDown, drain_all_lem}

-- A call that streams, without a subscription.
abbrev pub quiet_call : CallSession
quiet_call = record {
  call_id = "call-1";
  call_sid = "CA1";
  account_sid = "AC1";
  from = "+491";
  to = "+492";
  start_time = 1 * second;
  terminal = none;
  status_callback = none;
  seq_counter = 0;
  answered_at = none;
  sip_final_code = 0;
  ever_emitted = false;
  has_status_client = false;
  enqueued = [];
  drained = [];
  state = streaming;
  legs = [];
  byes = [];
  session_cancelled = false;
  ws_cancelled = false;
  running = true;
  ws_actions = [];
  stream_closed = false;
  stop_reason = "";
  close_stream_once = false;
  terminate_once = false;
}

-- A manager with this call.
abbrev pub manager : CallManager
manager = record {
  heap = λ r. quiet_call;
  next = 1;
  sessions = ("call-1", 0) ∷ [];
  call_sid_idx = ("CA1", 0) ∷ [];
  recently_terminated = [];
  incs = 1;
  decs = 0;
  cleaned = λ r. false;
  has_status_client = false;
  default_url = "";
  default_method = "";
  default_events = [];
}

finish_found_example :
    let t = finish (9 * second) "call-1" 0 manager in
    (get_by_call_sid "CA1" t ≡ some (ended (snapshot (mark_if_open (9 * second) quiet_call))))
    × (load "call-1" t.sessions ≡ none)
    × (load "CA1" t.call_sid_idx ≡ none)
finish_found_example = finish_found (9 * second) 0 "call-1" manager

found_by_sid : load "CA1" manager.call_sid_idx ≡ some 0
unfolding load
found_by_sid = refl

found_by_id : load "call-1" manager.sessions ≡ some 0
unfolding load
found_by_id = refl

-- Sweeps every minute, up to the last one that keeps the snapshot.
abbrev sweeps : List ℕ
sweeps = 60 * second ∷ 120 * second ∷ 309 * second ∷ []

finish_kept_example :
    let t = snapshot (mark_if_open (9 * second) quiet_call) in
    let swept = sweep_all sweeps (finish (9 * second) "call-1" 0 manager) in
    (get_by_call_sid "CA1" swept ≡ some (ended t))
    × (get_by_call_sid "CA1" (sweep (310 * second) swept) ≡ none)
unfolding snapshot end_time mark_if_open mark_terminated stamp_terminated
    emit_terminal_status_callback swap_final_code
finish_kept_example =
    finish_kept sweeps (9 * second) (310 * second) 0 "call-1" manager tt
      (omega arith, (omega arith, (omega arith, tt)))

-- A call with its inbound leg, whose dialog is 7.
abbrev with_leg : CallSession
with_leg = record quiet_call { legs = some inbound ∷ [] }

drain_all_example :
    IsDown with_leg ((drain_all (9 * second) (record manager { heap = λ r. with_leg })).heap 0)
drain_all_example =
    drain_all_lem (9 * second) 0 "call-1" (record manager { heap = λ r. with_leg }) found_by_id
      (inl refl)

drain_all_bye : pending with_leg.legs ≡ 7 ∷ []
drain_all_bye = refl

list_calls_example :
    IsFalling (list_calls manager)
    × ((sid : String)
        → times sid (list_calls manager)
          ≡ active_times sid manager.heap manager.call_sid_idx
            + ended_times sid manager.recently_terminated)
list_calls_example = list_calls_lem manager
