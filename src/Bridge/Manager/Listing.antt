-- ===== src/Bridge/Manager/Listing.antt =====
-- The list of calls that manager.go gives the REST API.
use sipgate_sip_stream_bridg.Prelude.{
  ℕ, ◌+◌, ◌≤◌, ◌≡◌, refl, String, some, List, [], ◌∷◌, ◌++◌, arith, ltb, str_eq, str_eq_refl,
  if◌then◌else◌, Bool-cases, inl, inr, map,
}
use sipgate_sip_stream_bridg.Prelude.Dict.{Dict, load, store}
use sipgate_sip_stream_bridg.Bridge.Call.{CallSession}
use sipgate_sip_stream_bridg.Bridge.Manager.{
  CallManager, Snapshot, snapshot, mark_if_open, keep_snapshot, BridgeCall, active, ended, started,
  collect, insert_by_start, sort_by_start, list_calls,
}
use sipgate_sip_stream_bridg.Bridge.Manager.Ending.{mark_if_open-call_sid}

abbrev pub sid_of : BridgeCall → String
sid_of (active s) = s.call_sid
sid_of (ended t) = t.call_sid

-- How often a list shows a call.
abbrev pub times : String → List BridgeCall → ℕ
times sid [] = 0
times sid (c ∷ cs) = (if str_eq (sid_of c) sid then 1 else 0) + times sid cs

-- Falling start times.
abbrev IsHead : BridgeCall → List BridgeCall → Type 0
IsHead c [] = Unit
IsHead c (d ∷ ds) = started d ≤ started c

abbrev pub IsFalling : List BridgeCall → Type 0
IsFalling [] = Unit
IsFalling (c ∷ cs) = IsHead c cs × IsFalling cs

insert-IsHead :
    (c d : BridgeCall) (ds : List BridgeCall)
    → started c ≤ started d
    → IsHead d ds
    → IsHead d (insert_by_start c ds)
unfolding insert_by_start
insert-IsHead c d [] h k = h
insert-IsHead c d (e ∷ ds) h k = ground arith

insert-IsFalling :
    (c : BridgeCall) (ds : List BridgeCall) → IsFalling ds → IsFalling (insert_by_start c ds)
unfolding insert_by_start
insert-IsFalling c [] h = (tt, tt)
insert-IsFalling c (d ∷ ds) h = elim (Bool-cases (ltb (started d) (started c))) [
  | inl e ↦ rw e (ground arith, h)
  | inr e ↦ rw e (insert-IsHead c d ds (ground arith) h.0, insert-IsFalling c ds h.1)
]

insert-times :
    (sid : String) (c : BridgeCall) (ds : List BridgeCall)
    → times sid (insert_by_start c ds) ≡ times sid (c ∷ ds)
unfolding insert_by_start
insert-times sid c [] = refl
insert-times sid c (d ∷ ds) = ground (arith, insert-times sid c ds)

sort-IsFalling : (cs : List BridgeCall) → IsFalling (sort_by_start cs)
unfolding sort_by_start
sort-IsFalling [] = tt
sort-IsFalling (c ∷ cs) = insert-IsFalling c (sort_by_start cs) (sort-IsFalling cs)

sort-times : (sid : String) (cs : List BridgeCall) → times sid (sort_by_start cs) ≡ times sid cs
unfolding sort_by_start
sort-times sid [] = refl
sort-times sid (c ∷ cs) = omega (arith, insert-times sid c (sort_by_start cs), sort-times sid cs)

times-append :
    (sid : String) (cs ds : List BridgeCall) → times sid (cs ++ ds) ≡ times sid cs + times sid ds
times-append sid [] ds = omega arith
times-append sid (c ∷ cs) ds = omega (arith, times-append sid cs ds)

-- How often the two maps of a manager hold a call.
abbrev pub active_times : String → (ℕ → CallSession) → Dict ℕ → ℕ
active_times sid heap [] = 0
active_times sid heap ((k, r) ∷ d) =
    (if str_eq (heap r).call_sid sid then 1 else 0) + active_times sid heap d

abbrev pub ended_times : String → Dict Snapshot → ℕ
ended_times sid [] = 0
ended_times sid ((k, t) ∷ d) = (if str_eq t.call_sid sid then 1 else 0) + ended_times sid d

times-active :
    (sid : String) (heap : ℕ → CallSession) (d : Dict ℕ)
    → times sid (map (λ (e : String × ℕ). active (heap e.1)) d) ≡ active_times sid heap d
times-active sid heap [] = refl
times-active sid heap ((k, r) ∷ d) = omega (arith, times-active sid heap d)

times-ended :
    (sid : String) (d : Dict Snapshot)
    → times sid (map (λ (e : String × Snapshot). ended e.1) d) ≡ ended_times sid d
times-ended sid [] = refl
times-ended sid ((k, t) ∷ d) = omega (arith, times-ended sid d)

-- The list of calls is sorted by falling start time, and shows each SID as often as the active index
-- and the snapshots hold it together.
pub list_calls_lem :
    (m : CallManager)
    → IsFalling (list_calls m)
      × ((sid : String)
          → times sid (list_calls m)
            ≡ active_times sid m.heap m.call_sid_idx + ended_times sid m.recently_terminated)
unfolding list_calls collect
list_calls_lem m = (
  sort-IsFalling (collect m),
  λ sid. omega (
    arith,
    sort-times sid (collect m),
    times-append sid (map (λ (e : String × ℕ). active (m.heap e.1)) m.call_sid_idx)
        (map (λ (e : String × Snapshot). ended e.1) m.recently_terminated),
    times-active sid m.heap m.call_sid_idx,
    times-ended sid m.recently_terminated,
  ),
)

load-active_times :
    (k sid : String) (r : ℕ) (heap : ℕ → CallSession) (d : Dict ℕ)
    → load k d ≡ some r
    → (heap r).call_sid ≡ sid
    → 1 ≤ active_times sid heap d
unfolding load
load-active_times k sid r heap [] h e = cc
load-active_times k sid r heap ((j, q) ∷ d) h e =
    ground (arith, load-active_times k sid r heap d, str_eq_refl sid)

store-ended_times :
    (k sid : String) (t : Snapshot) (d : Dict Snapshot)
    → t.call_sid ≡ sid
    → 1 ≤ ended_times sid (store k t d)
unfolding store
store-ended_times k sid t [] e = ground (arith, str_eq_refl sid)
store-ended_times k sid t ((j, w) ∷ d) e =
    ground (arith, store-ended_times k sid t d e, str_eq_refl sid)

-- While a call ends, after its snapshot is stored and before it leaves the index of active calls, the
-- list of calls shows it at least twice.
listed_twice :
    (now r : ℕ) (m : CallManager)
    → load (m.heap r).call_sid m.call_sid_idx ≡ some r
    → 2 ≤ times (m.heap r).call_sid (list_calls (keep_snapshot now r m))
unfolding keep_snapshot snapshot
listed_twice now r m h =
    let s = mark_if_open now (m.heap r) in
    let e = mark_if_open-call_sid now (m.heap r) in
    let sid = (m.heap r).call_sid in
    omega (
      arith,
      (list_calls_lem (keep_snapshot now r m)).1 sid,
      load-active_times sid sid r (keep_snapshot now r m).heap m.call_sid_idx h (ground arith),
      store-ended_times s.call_sid sid (snapshot s) m.recently_terminated e,
    )
