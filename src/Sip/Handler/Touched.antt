-- ===== src/Sip/Handler/Touched.antt =====
-- go/internal/sip/handler.go: what the events of an INVITE leave alone in the manager.
use sipgate_sip_stream_bridg.Prelude.{
  ℕ, ◌≡◌, refl, sym, subst, ap, ◌∙◌, String, Bool, true, false, Option, none, some, arith, ◌==◌,
  if◌then◌else◌,
}
use sipgate_sip_stream_bridg.Prelude.Dict.{load}
use sipgate_sip_stream_bridg.Webhook.Subscription.{subscription_matches}
use sipgate_sip_stream_bridg.Bridge.Call.{CallSession, StatusCallbackConfig, next_sequence_number}
use sipgate_sip_stream_bridg.Bridge.Manager.{CallManager}
use sipgate_sip_stream_bridg.Sip.Handler.{
  StatusSink, Parties, set_session, subscribed, status_lookup, after_enqueue, emit_found,
  emit_status_event,
}

-- Only the session `r` of a manager is changed, and it keeps its SID.
pub record Touched (r : ℕ) (m t : CallManager) : Type 0 where
  pub sessions : t.sessions ≡ m.sessions
  pub call_sid_idx : t.call_sid_idx ≡ m.call_sid_idx
  pub recently_terminated : t.recently_terminated ≡ m.recently_terminated
  pub incs : t.incs ≡ m.incs
  pub decs : t.decs ≡ m.decs
  pub cleaned : t.cleaned ≡ m.cleaned
  pub others : (j : ℕ) → (j == r) ≡ false → t.heap j ≡ m.heap j
  pub call_sid : (t.heap r).call_sid ≡ (m.heap r).call_sid

pub Touched-refl : (r : ℕ) (m : CallManager) → Touched r m m
Touched-refl r m = record {
  sessions = refl;
  call_sid_idx = refl;
  recently_terminated = refl;
  incs = refl;
  decs = refl;
  cleaned = refl;
  others = λ j h. refl;
  call_sid = refl;
}

pub Touched-trans : (r : ℕ) (m t u : CallManager) → Touched r m t → Touched r t u → Touched r m u
Touched-trans r m t u a b = record {
  sessions = b.sessions ∙ a.sessions;
  call_sid_idx = b.call_sid_idx ∙ a.call_sid_idx;
  recently_terminated = b.recently_terminated ∙ a.recently_terminated;
  incs = b.incs ∙ a.incs;
  decs = b.decs ∙ a.decs;
  cleaned = b.cleaned ∙ a.cleaned;
  others = λ j h. b.others j h ∙ a.others j h;
  call_sid = b.call_sid ∙ a.call_sid;
}

pub set_session-here : (r : ℕ) (s : CallSession) (m : CallManager) → (set_session r s m).heap r ≡ s
set_session-here r s m = ground arith

pub set_session-Touched :
    (r : ℕ) (s : CallSession) (m : CallManager)
    → s.call_sid ≡ (m.heap r).call_sid
    → Touched r m (set_session r s m)
set_session-Touched r s m h = record {
  sessions = refl;
  call_sid_idx = refl;
  recently_terminated = refl;
  incs = refl;
  decs = refl;
  cleaned = refl;
  others = λ j e. ground (arith, e);
  call_sid = ap (λ (x : CallSession). x.call_sid) (set_session-here r s m) ∙ h;
}

-- An event changes of its session only the sequence number and the mark that it was emitted.
pub record Emitted (r : ℕ) (m t : CallManager) : Type 0 where
  pub touched : Touched r m t
  pub code : (t.heap r).sip_final_code ≡ (m.heap r).sip_final_code
  pub answered : (t.heap r).answered_at ≡ (m.heap r).answered_at

Emitted-trans : (r : ℕ) (m t u : CallManager) → Emitted r m t → Emitted r t u → Emitted r m u
Emitted-trans r m t u a b = record {
  touched = Touched-trans r m t u a.touched b.touched;
  code = b.code ∙ a.code;
  answered = b.answered ∙ a.answered;
}

Emitted-refl : (r : ℕ) (m : CallManager) → Emitted r m m
Emitted-refl r m = record { touched = Touched-refl r m; code = refl; answered = refl }

set_session-Emitted :
    (r : ℕ) (s : CallSession) (m : CallManager)
    → s.call_sid ≡ (m.heap r).call_sid
    → s.sip_final_code ≡ (m.heap r).sip_final_code
    → s.answered_at ≡ (m.heap r).answered_at
    → Emitted r m (set_session r s m)
set_session-Emitted r s m sid code answered = record {
  touched = set_session-Touched r s m sid;
  code = ap (λ (x : CallSession). x.sip_final_code) (set_session-here r s m) ∙ code;
  answered = ap (λ (x : CallSession). x.answered_at) (set_session-here r s m) ∙ answered;
}

module _ {κ} {K : Type κ} (sink : StatusSink K) where
  Emitted-if :
      (r : ℕ) (m : CallManager) (b : Bool) (p q : CallManager × K)
      → Emitted r m p.0
      → Emitted r m q.0
      → Emitted r m (if b then p else q).0
  Emitted-if r m true p q hp hq = hp
  Emitted-if r m false p q hp hq = hq

  after_enqueue-Emitted :
      (r : ℕ) (m : CallManager) (o : K × Bool) → Emitted r m (after_enqueue r m o).0
  unfolding after_enqueue
  after_enqueue-Emitted r m (k, true) = set_session-Emitted r _ m refl refl refl
  after_enqueue-Emitted r m (k, false) = Emitted-refl r m

  emit_subscribed-Emitted :
      (p : Parties) (name call_status : String) (now r : ℕ) (m : CallManager) (k : K)
      (cfg : Option StatusCallbackConfig)
      → Emitted r m (emit_found sink p name call_status now m k (subscribed r m cfg)).0
  unfolding emit_found subscribed next_sequence_number
  emit_subscribed-Emitted p name call_status now r m k none = Emitted-refl r m
  emit_subscribed-Emitted p name call_status now r m k (some cfg) =
      let numbered = (next_sequence_number (m.heap r)).0 in
      let here = set_session-Emitted r numbered m refl refl refl in
      Emitted-if r m (subscription_matches cfg.events name) _ _
        (Emitted-trans r m (set_session r numbered m) _ here
          (after_enqueue-Emitted r (set_session r numbered m) _))
        here

  status_lookup-found :
      (sid : String) (r : ℕ) (m : CallManager)
      → load sid m.call_sid_idx ≡ some r
      → status_lookup sid m ≡ subscribed r m (m.heap r).status_callback
  unfolding status_lookup
  status_lookup-found sid r m h = rw (h, status_lookup) refl

  -- An event of a call touches the session of its SID alone.
  pub emit_status_event-Emitted :
      (wired : Bool) (p : Parties) (name call_status : String) (now r : ℕ) (m : CallManager) (k : K)
      → load p.call_sid m.call_sid_idx ≡ some r
      → Emitted r m (emit_status_event sink wired p name call_status now m k).0
  unfolding emit_status_event
  emit_status_event-Emitted true p name call_status now r m k h =
      subst (λ o. Emitted r m (emit_found sink p name call_status now m k o).0)
        (sym (status_lookup-found p.call_sid r m h))
        (emit_subscribed-Emitted p name call_status now r m k (m.heap r).status_callback)
  emit_status_event-Emitted false p name call_status now r m k h = Emitted-refl r m
