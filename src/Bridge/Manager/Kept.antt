-- ===== src/Bridge/Manager/Kept.antt =====
-- How long manager.go keeps the snapshot of an ended call.
use sipgate_sip_stream_bridg.Prelude.{
  ℕ, ◌-◌, ◌≡◌, refl, String, Option, none, some, [], ◌∷◌, arith, ltb, str_eq, str_eq_iff, All, List,
  ap, ◌≤◌, ◌+◌, if◌then◌else◌, Bool-cases, inl, inr, ◌∙◌, subst,
}
use sipgate_sip_stream_bridg.Prelude.Dict.{Dict, load, store, load-store, load-store_self}
use sipgate_sip_stream_bridg.Bridge.Manager.{
  CallManager, Snapshot, snapshot, mark_if_open, finish, keep_snapshot, remove_session, sweep,
  sweep_entries, ended, get_by_call_sid, recently_terminated_ttl,
}
use sipgate_sip_stream_bridg.Bridge.Manager.Ending.{finish_found, mark_if_open-call_sid}

-- A map has no key twice.
abbrev pub Unique {ℓ} : {V : Type ℓ} → Dict V → Type ℓ
Unique [] = Unit
Unique ((k, v) ∷ d) = (load k d ≡ none) × Unique d

store-Unique {ℓ} : {V : Type ℓ} (k : String) (v : V) (d : Dict V) → Unique d → Unique (store k v d)
unfolding store load
store-Unique k v [] u = (refl, tt)
store-Unique k v ((j, w) ∷ d) u = elim (Bool-cases (str_eq j k)) [
  | inl e ↦ rw e (subst (λ i. load i d ≡ none) ((str_eq_iff j k).0 e) u.0, u.1)
  | inr e ↦
      rw e (
        load-store k j v d ∙ ground (arith, str_eq_iff k j, str_eq_iff j k),
        store-Unique k v d u.1,
      )
]

abbrev unexpired : ℕ → Option Snapshot → Option Snapshot
unexpired now none = none
unexpired now (some t) = if ltb recently_terminated_ttl (now - t.end_time) then none else some t

-- A pass of the sweeper removes the expired snapshots from the map, and no others.
load-sweep_entries :
    (now : ℕ) (k : String) (d : Dict Snapshot)
    → Unique d
    → load k (sweep_entries now d) ≡ unexpired now (load k d)
unfolding sweep_entries load
load-sweep_entries now k [] u = refl
load-sweep_entries now k ((j, t) ∷ d) u =
    ground (arith, load-sweep_entries now k d u.1, str_eq_iff j k)

finish-Unique :
    (now r : ℕ) (call_id : String) (m : CallManager)
    → Unique m.recently_terminated
    → Unique (finish now call_id r m).recently_terminated
unfolding finish remove_session keep_snapshot
finish-Unique now r call_id m u =
    let s = mark_if_open now (m.heap r) in
    store-Unique s.call_sid (snapshot s) m.recently_terminated u

finish_stored :
    (now r : ℕ) (call_id : String) (m : CallManager)
    → load (m.heap r).call_sid (finish now call_id r m).recently_terminated
      ≡ some (snapshot (mark_if_open now (m.heap r)))
unfolding finish remove_session keep_snapshot
finish_stored now r call_id m =
    let s = mark_if_open now (m.heap r) in
    subst (λ k. load k (store s.call_sid (snapshot s) m.recently_terminated) ≡ some (snapshot s))
      (mark_if_open-call_sid now (m.heap r))
      (load-store_self s.call_sid (snapshot s) m.recently_terminated)

abbrev pub sweep_all : List ℕ → CallManager → CallManager
sweep_all [] m = m
sweep_all (now ∷ nows) m = sweep_all nows (sweep now m)

sweep_entries-Unique : (now : ℕ) (d : Dict Snapshot) → Unique d → Unique (sweep_entries now d)
unfolding sweep_entries
sweep_entries-Unique now [] u = tt
sweep_entries-Unique now ((k, t) ∷ d) u =
    let rest = sweep_entries-Unique now d u.1 in
    elim (Bool-cases (ltb recently_terminated_ttl (now - t.end_time))) [
      | inl e ↦ rw e rest
      | inr e ↦ rw e (load-sweep_entries now k d u.1 ∙ ap (unexpired now) u.0, rest)
    ]

-- A snapshot survives the sweeps up to 300 seconds after its end.
load-sweep_all :
    (nows : List ℕ) (k : String) (t : Snapshot) (m : CallManager)
    → Unique m.recently_terminated
    → load k m.recently_terminated ≡ some t
    → All (λ now. now ≤ t.end_time + 300_000_000_000) nows
    → let s = sweep_all nows m in
      (load k s.recently_terminated ≡ some t)
      × (load k s.call_sid_idx ≡ load k m.call_sid_idx)
      × Unique s.recently_terminated
unfolding sweep
load-sweep_all [] k t m u h young = (h, refl, u)
load-sweep_all (now ∷ nows) k t m u h (at_now, later) =
    let kept : load k (sweep_entries now m.recently_terminated) ≡ some t =
      ground (arith, load-sweep_entries now k m.recently_terminated u) in
    load-sweep_all nows k t (sweep now m) (sweep_entries-Unique now m.recently_terminated u) kept
      later

-- The snapshot of a call that ended through StartSessionWithPreRegistered is found by its SID after any
-- sweeps up to 300 seconds after the end of the call, and after one more sweep exactly if that one is no
-- later either. Nothing but the sweeper runs in between.
pub finish_kept :
    (nows : List ℕ) (now last r : ℕ) (call_id : String) (m : CallManager)
    → Unique m.recently_terminated
    → All (λ s. s ≤ (snapshot (mark_if_open now (m.heap r))).end_time + 300_000_000_000) nows
    → let t = snapshot (mark_if_open now (m.heap r)) in
      let swept = sweep_all nows (finish now call_id r m) in
      (get_by_call_sid (m.heap r).call_sid swept ≡ some (ended t))
      × (get_by_call_sid (m.heap r).call_sid (sweep last swept)
          ≡ (if ltb (t.end_time + 300_000_000_000) last then none else some (ended t)))
unfolding sweep get_by_call_sid
finish_kept nows now last r call_id m u young =
    let f = finish now call_id r m in
    let sid = (m.heap r).call_sid in
    let t = snapshot (mark_if_open now (m.heap r)) in
    let (kept, same, unique) =
      load-sweep_all nows sid t f (finish-Unique now r call_id m u) (finish_stored now r call_id m)
        young in
    let (found, out, gone) = finish_found now r call_id m in
    let swept = sweep_all nows f in
    (
      ground (arith, kept, same, gone),
      ground
          (arith, kept, same, gone, load-sweep_entries last sid swept.recently_terminated unique),
    )
