-- ===== src/Bridge/Manager/Cleanup.antt =====
-- The cleanup that PreRegisterSession of manager.go returns.
use sipgate_sip_stream_bridg.Prelude.{
  ℕ, suc, ◌≡◌, refl, String, true, false, none, arith, ◌==◌, str_eq_iff,
}
use sipgate_sip_stream_bridg.Prelude.Dict.{load, store, load-store, load-delete}
use sipgate_sip_stream_bridg.Bridge.Manager.{
  CallManager, shell, pre_register, keep_snapshot, remove_session, finish, cleanup,
}

eq_self : (r : ℕ) → (r == r) ≡ true
eq_self r = ground arith

cleanup_stop :
    (now r : ℕ) (call_id : String) (m : CallManager)
    → m.cleaned r ≡ true
    → cleanup now call_id r m ≡ m
unfolding cleanup
cleanup_stop now r call_id m h = rw h refl

cleanup-cleaned :
    (now r : ℕ) (call_id : String) (m : CallManager) → (cleanup now call_id r m).cleaned r ≡ true
unfolding cleanup remove_session keep_snapshot
cleanup-cleaned now r call_id m = ground (arith, eq_self r)

-- The cleanup of a session is idempotent: a second call of it changes nothing.
pub cleanup_twice :
    (now later r : ℕ) (call_id : String) (m : CallManager)
    → cleanup later call_id r (cleanup now call_id r m) ≡ cleanup now call_id r m
cleanup_twice now later r call_id m =
    cleanup_stop later r call_id (cleanup now call_id r m) (cleanup-cleaned now r call_id m)

-- A session that is registered under an unused Call-ID and SID, and cleaned up before it has emitted
-- anything, leaves no trace: every Call-ID and every SID finds what it found before, no snapshot is
-- stored, and the gauge is counted up once and down once.
pre_register-cleanup :
    (call_sid call_id account_sid from to : String) (start now : ℕ) (m : CallManager)
    → load call_id m.sessions ≡ none
    → load call_sid m.call_sid_idx ≡ none
    → let (m', r) = pre_register call_sid call_id account_sid from to start m in
      let t = cleanup now call_id r m' in
      ((k : String) → load k t.sessions ≡ load k m.sessions)
      × ((k : String) → load k t.call_sid_idx ≡ load k m.call_sid_idx)
      × (t.recently_terminated ≡ m.recently_terminated)
      × (t.incs ≡ suc m.incs)
      × (t.decs ≡ suc m.decs)
unfolding pre_register cleanup remove_session shell
pre_register-cleanup call_sid call_id account_sid from to start now m free_id free_sid = (
  λ k. ground (
    arith,
    eq_self m.next,
    load-delete call_id k (store call_id m.next m.sessions),
    load-store call_id k m.next m.sessions,
    str_eq_iff call_id k,
  ),
  λ k. ground (
    arith,
    eq_self m.next,
    load-delete call_sid k (store call_sid m.next m.call_sid_idx),
    load-store call_sid k m.next m.call_sid_idx,
    str_eq_iff call_sid k,
  ),
  ground (arith, eq_self m.next),
  ground (arith, eq_self m.next),
  ground (arith, eq_self m.next),
)

-- The cleanup of a session that StartSessionWithPreRegistered has already removed is not without
-- effect: the gauge, which was counted up once for the session, is counted down a second time.
cleanup-finish :
    (now later r : ℕ) (call_id : String) (m : CallManager)
    → m.cleaned r ≡ false
    → (cleanup later call_id r (finish now call_id r m)).decs ≡ suc (suc m.decs)
unfolding cleanup finish remove_session keep_snapshot
cleanup-finish now later r call_id m h = ground arith
