-- ===== src/Bridge/Manager/Ending.antt =====
-- How a session leaves the indices of manager.go, by StartSessionWithPreRegistered or by the cleanup
-- of PreRegisterSession.
use sipgate_sip_stream_bridg.Prelude.{
  ℕ, ◌≡◌, refl, String, Bool, true, Option, none, some, arith, ◌==◌, subst, sym,
}
use sipgate_sip_stream_bridg.Prelude.Dict.{load, store, delete, load-store_self, load-delete_self}
use sipgate_sip_stream_bridg.Bridge.Call.{
  CallSession, StatusCallbackConfig, twilio_status_from_term_reason, swap_final_code, mark_emitted,
  next_sequence_number,
}
use sipgate_sip_stream_bridg.Bridge.Call.Callback.{
  mark_terminated, stamp_terminated, emit_terminal_status_callback, enqueue_terminal,
  emit_subscribed, default_sip_code_for_reason,
}
use sipgate_sip_stream_bridg.Bridge.Manager.{
  CallManager, Snapshot, snapshot, mark_if_open, keep_snapshot, remove_session, finish, active,
  ended, get_by_call_sid,
}

emit_subscribed-call_sid :
    (b : Bool) (c : Option StatusCallbackConfig) (call_status : String) (now : ℕ) (s : CallSession)
    → (emit_subscribed b c call_status now s).call_sid ≡ s.call_sid
unfolding enqueue_terminal next_sequence_number mark_emitted
emit_subscribed-call_sid b c call_status now s = ground arith

pub mark_if_open-call_sid : (now : ℕ) (s : CallSession) → (mark_if_open now s).call_sid ≡ s.call_sid
unfolding mark_if_open mark_terminated stamp_terminated emit_terminal_status_callback
    swap_final_code
mark_if_open-call_sid now s = ground (
  arith,
  emit_subscribed-call_sid s.has_status_client s.status_callback
      (twilio_status_from_term_reason "failed") now
      (swap_final_code (default_sip_code_for_reason "failed") (record s {
        terminate_once = true;
        terminal = some (record { end_time = now; term_reason = "failed" });
      })),
)

-- Go's equality of pointers: a session is found where it was written.
eq_self : (r : ℕ) → (r == r) ≡ true
eq_self r = ground arith

found_ended :
    (sid : String) (t : Snapshot) (m : CallManager)
    → load sid m.call_sid_idx ≡ none
    → load sid m.recently_terminated ≡ some t
    → get_by_call_sid sid m ≡ some (ended t)
unfolding get_by_call_sid
found_ended sid t m gone kept = ground arith

-- When a session has ended through StartSessionWithPreRegistered, its Call-ID and its SID are out of
-- the indices of active calls, and its SID gives the snapshot of the session as it was marked.
pub finish_found :
    (now r : ℕ) (call_id : String) (m : CallManager)
    → let sid = (m.heap r).call_sid in
      let t = finish now call_id r m in
      (get_by_call_sid sid t ≡ some (ended (snapshot (mark_if_open now (m.heap r)))))
      × (load call_id t.sessions ≡ none)
      × (load sid t.call_sid_idx ≡ none)
unfolding finish remove_session keep_snapshot get_by_call_sid
finish_found now r call_id m =
    let s = mark_if_open now (m.heap r) in
    let e = mark_if_open-call_sid now (m.heap r) in
    let sid = (m.heap r).call_sid in
    let t = finish now call_id r m in
    let gone : load sid (delete ((keep_snapshot now r m).heap r).call_sid m.call_sid_idx) ≡ none =
      rw (eq_self r, e) (load-delete_self sid m.call_sid_idx) in
    (
      found_ended sid (snapshot s) t gone (
          subst (λ k. load sid (store k (snapshot s) m.recently_terminated) ≡ some (snapshot s))
            (sym e) (load-store_self sid (snapshot s) m.recently_terminated)),
      load-delete_self call_id m.sessions,
      gone,
    )

-- Between the two halves of an ending the SID still gives the active session, as it was marked: at no
-- moment of the ending is the call nowhere.
pub ending_found :
    (now r : ℕ) (m : CallManager)
    → let sid = (m.heap r).call_sid in
      load sid m.call_sid_idx ≡ some r
      → get_by_call_sid sid (keep_snapshot now r m) ≡ some (active (mark_if_open now (m.heap r)))
unfolding keep_snapshot get_by_call_sid
ending_found now r m h = rw (h, eq_self r) refl
