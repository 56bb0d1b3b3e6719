-- ===== src/Bridge/Manager/Drain.antt =====
-- DrainAll of manager.go: every listed call is terminated.
use sipgate_sip_stream_bridg.Prelude.{
  ℕ, ◌≡◌, String, true, none, some, [], ◌∷◌, arith, ◌==◌, str_eq, Bool-cases, ◌⊎◌, inl, inr, ◌∙◌,
  ap, subst, sym, ==_iff, refl, ◌++◌,
}
use mathlib.Core.List.{append-nil}
use sipgate_sip_stream_bridg.Prelude.Dict.{Dict, load}
use sipgate_sip_stream_bridg.Bridge.State.{terminated}
use sipgate_sip_stream_bridg.Bridge.Call.{CallSession}
use sipgate_sip_stream_bridg.Bridge.Call.Lifecycle.{terminate, advance_terminated}
use sipgate_sip_stream_bridg.Bridge.Call.Frame.{mark_terminated-SameMedia}
use sipgate_sip_stream_bridg.Bridge.Call.Byes.{pending, terminate_byes}
use sipgate_sip_stream_bridg.Bridge.Call.Phases.{IsLive, advance_live}
use sipgate_sip_stream_bridg.Bridge.Manager.{CallManager, update, terminate_all, drain_all}

-- The call `first` terminated, with the BYEs of its dialogs sent once.
pub record IsDown (first s : CallSession) : Type 0 where
  pub phase : s.state ≡ terminated
  pub sent : s.byes ≡ first.byes ++ pending first.legs
  pub rest : pending s.legs ≡ []

abbrev shut : ℕ → CallSession → CallSession
shut now s = (terminate {E = Unit {0}} (λ d. none) "shutdown" now s).0

shut-state : (now : ℕ) (s : CallSession) → (shut now s).state ≡ advance_terminated s.state
unfolding terminate
shut-state now s = ap advance_terminated (mark_terminated-SameMedia "shutdown" now s).state

shut-live : (now : ℕ) (s : CallSession) → IsLive s.state → IsDown s (shut now s)
shut-live now s h =
    let (sent, rest) = terminate_byes {E = Unit {0}} (λ d. none) "shutdown" now s in
    record { phase = shut-state now s ∙ advance_live s.state h; sent = sent; rest = rest }

shut-IsDown : (now : ℕ) (first s : CallSession) → IsDown first s → IsDown first (shut now s)
unfolding advance_terminated
shut-IsDown now first s h =
    let (sent, rest) = terminate_byes {E = Unit {0}} (λ d. none) "shutdown" now s in
    record {
      phase = shut-state now s ∙ ap advance_terminated h.phase;
      sent = sent ∙ rw h.rest (append-nil s.byes ∙ h.sent);
      rest = rest;
    }

-- A call that the loop has not reached is as it was.
shut-any :
    (now : ℕ) (first s : CallSession)
    → IsLive first.state
    → (s ≡ first) ⊎ IsDown first s
    → IsDown first (shut now s)
shut-any now first s live (inl e) = rw e (shut-live now first live)
shut-any now first s live (inr h) = shut-IsDown now first s h

eq_self : (r : ℕ) → (r == r) ≡ true
eq_self r = ground arith

-- One round of the loop, seen at a session.
round :
    (now r q : ℕ) (heap : ℕ → CallSession) (P : CallSession → Type 0)
    → P (shut now (heap r))
    → P (heap r)
    → P (update heap q (shut now (heap q)) r)
round now r q heap P same other = elim (Bool-cases (r == q)) [
  | inl e ↦ rw e (subst (λ i. P (shut now (heap i))) ((==_iff r q).0 e) same)
  | inr e ↦ rw e other
]

-- The loop leaves a call that is down, down.
all-IsDown :
    (now r : ℕ) (first : CallSession) (d : Dict ℕ) (heap : ℕ → CallSession)
    → IsDown first (heap r)
    → IsDown first (terminate_all now d heap r)
unfolding terminate_all
all-IsDown now r first [] heap h = h
all-IsDown now r first ((k, q) ∷ d) heap h =
    all-IsDown now r first d (update heap q (shut now (heap q)))
      (round now r q heap (IsDown first) (shut-IsDown now first (heap r) h) h)

load_head :
    (k j : String) (r q : ℕ) (d : Dict ℕ) → str_eq j k ≡ true → load k ((j, q) ∷ d) ≡ some r → q ≡ r
unfolding load
load_head k j r q d e found = ground arith

all-live :
    (now r : ℕ) (first : CallSession) (k : String) (d : Dict ℕ) (heap : ℕ → CallSession)
    → load k d ≡ some r
    → IsLive first.state
    → (heap r ≡ first) ⊎ IsDown first (heap r)
    → IsDown first (terminate_all now d heap r)
unfolding terminate_all load
all-live now r first k [] heap found live h = cc
all-live now r first k ((j, q) ∷ d) heap found live h = elim (Bool-cases (str_eq j k)) [
  | inl e ↦ all-IsDown now r first d (update heap q (shut now (heap q))) (
      subst (λ i. IsDown first (update heap q (shut now (heap q)) i)) (load_head k j r q d e found)
        (rw (eq_self q) (
          shut-any now first (heap q) live (
            subst (λ i. (heap i ≡ first) ⊎ IsDown first (heap i))
              (sym (load_head k j r q d e found)) h))))
  | inr e ↦ all-live now r first k d (update heap q (shut now (heap q))) (ground arith) live (
      round now r q heap (λ s. (s ≡ first) ⊎ IsDown first s)
        (inr (shut-any now first (heap r) live h)) h)
]

-- DrainAll terminates every call that it finds in the index, once: one that streams, dials or forwards
-- ends in the terminated phase, and to the BYEs that it had sent come exactly those of its legs with a
-- dialog and none sent so far, with none left to send. A callee leg has no dialog and gets no BYE.
pub drain_all_lem :
    (now r : ℕ) (call_id : String) (m : CallManager)
    → load call_id m.sessions ≡ some r
    → IsLive (m.heap r).state
    → IsDown (m.heap r) ((drain_all now m).heap r)
unfolding drain_all
drain_all_lem now r call_id m found live =
    all-live now r (m.heap r) call_id m.sessions m.heap found live (inl refl)
