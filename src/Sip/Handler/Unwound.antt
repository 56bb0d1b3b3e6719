-- ===== src/Sip/Handler/Unwound.antt =====
-- go/internal/sip/handler.go, onInvite as a whole: a call that is not answered leaves nothing behind.
use mathlib.Core.Path.{ap₂}
use sipgate_sip_stream_bridg.Prelude.{
  ℕ, suc, ◌≤◌, ◌≡◌, refl, ap, ◌∙◌, String, Bool, true, false, Option, none, some, [], ◌∷◌, ◌⊎◌,
  arith, ◌==◌, length, if◌then◌else◌, str_eq_iff,
}
use sipgate_sip_stream_bridg.Prelude.Text.{Text}
use sipgate_sip_stream_bridg.Prelude.Dict.{
  Dict, load, store, delete, load-store, load-delete, load-store_self,
}
use sipgate_sip_stream_bridg.Webhook.Voice.{VoiceClient, VoiceParams, VoiceError}
use sipgate_sip_stream_bridg.Bridge.Ports.{acquire}
use sipgate_sip_stream_bridg.Bridge.Ports.Same.{SamePorts}
use sipgate_sip_stream_bridg.Bridge.Manager.{
  CallManager, keep_snapshot, remove_session, cleanup, pre_register, shell, update,
}
use sipgate_sip_stream_bridg.Bridge.Manager.Ending.{mark_if_open-call_sid}
use sipgate_sip_stream_bridg.Sip.Handler.{StatusSink}
use sipgate_sip_stream_bridg.Sip.Handler.Invite.{
  HandlerConfig, Invite, Desk, Started, unwind, on_invite,
}
use sipgate_sip_stream_bridg.Sip.Handler.Settled.{IsRefusal, Settled}
use sipgate_sip_stream_bridg.Sip.Handler.Invited.{invited-Settled}
use sipgate_sip_stream_bridg.Twiml.Xml.{Tokens}
use sipgate_sip_stream_bridg.Twiml.Parse.Elements.{Stop}

eq_self : (r : ℕ) → (r == r) ≡ true
eq_self r = ground arith

-- The cleanup of a session takes it out of both indices, whatever was emitted.
record Removed (call_id : String) (r : ℕ) (t u : CallManager) : Type 0 where
  sessions : u.sessions ≡ delete call_id t.sessions
  call_sid_idx : u.call_sid_idx ≡ delete (t.heap r).call_sid t.call_sid_idx
  incs : u.incs ≡ t.incs
  decs : u.decs ≡ suc t.decs
  others : (j : ℕ) → (j == r) ≡ false → u.heap j ≡ t.heap j

Removed-if :
    (now : ℕ) (call_id : String) (r : ℕ) (flags : ℕ → Bool) (t : CallManager) (emitted : Bool)
    → let c = record t { cleaned = flags } in
      Removed call_id r t (remove_session call_id r (if emitted then keep_snapshot now r c else c))
unfolding remove_session keep_snapshot
Removed-if now call_id r flags t false = record {
  sessions = refl;
  call_sid_idx = refl;
  incs = refl;
  decs = refl;
  others = λ j h. refl;
}
Removed-if now call_id r flags t true = record {
  sessions = refl;
  call_sid_idx =
      ap (λ sid. delete sid t.call_sid_idx)
        (ground (arith, eq_self r, mark_if_open-call_sid now (t.heap r)));
  incs = refl;
  decs = refl;
  others = λ j h. ground (arith, h);
}

cleanup-Removed :
    (now : ℕ) (call_id : String) (r : ℕ) (t : CallManager)
    → t.cleaned r ≡ false
    → Removed call_id r t (cleanup now call_id r t)
unfolding cleanup
cleanup-Removed now call_id r t uncleaned =
    rw uncleaned (Removed-if now call_id r (update t.cleaned r true) t (t.heap r).ever_emitted)

deleted_free :
    (j k : String) (r : ℕ) (m : Dict ℕ)
    → load j m ≡ none
    → load k (delete j (store j r m)) ≡ load k m
deleted_free j k r m free =
    ground (arith, free, load-delete j k (store j r m), load-store j k r m, str_eq_iff j k)

-- How an INVITE leaves the handler: refused, as if it had not come but for the gauge, or accepted, with
-- its session listed and answered and its port taken.
pub record Gone {κ} {K : Type κ} (call_id call_sid : String) (d t : Desk K) : Type 0 where
  pub sessions : (k : String) → load k t.manager.sessions ≡ load k d.manager.sessions
  pub call_sid_idx : (k : String) → load k t.manager.call_sid_idx ≡ load k d.manager.call_sid_idx
  pub gauge : (t.manager.incs ≡ suc d.manager.incs) × (t.manager.decs ≡ suc d.manager.decs)
  pub others : (j : ℕ) → (j == d.manager.next) ≡ false → t.manager.heap j ≡ d.manager.heap j
  pub ports : SamePorts d.pool t.pool
  pub sent : IsRefusal t.responses

pub record Running {κ} {K : Type κ} (i : Invite) (d t : Desk K) (s : Started) : Type 0 where
  pub listed : load i.parties.call_sid t.manager.call_sid_idx ≡ some d.manager.next
  pub registered : load i.call_id t.manager.sessions ≡ some d.manager.next
  pub others : (j : ℕ) → (j == d.manager.next) ≡ false → t.manager.heap j ≡ d.manager.heap j
  pub code : (t.manager.heap d.manager.next).sip_final_code ≡ 200
  pub answered : (t.manager.heap d.manager.next).answered_at ≡ some i.answered_at
  pub port : acquire d.pool ≡ (t.pool, some s.port)
  pub sent : t.responses ≡ 100 ∷ 180 ∷ 200 ∷ []

abbrev pub Left {κ} : {K : Type κ} → Invite → Desk K → Desk K × Option Started → Type 0
Left i d (t, none) = Gone i.call_id i.parties.call_sid d t
Left i d (t, some s) = Running i d t s

module _ {κ} {K : Type κ} (sink : StatusSink K) (decode : Text → Tokens × Stop)
    (ask : VoiceClient → VoiceParams → VoiceClient × (VoiceError ⊎ (Text × String)))
    (cfg : HandlerConfig) where
  -- The desk on which the session is registered.
  abbrev opened : Invite → Desk K → Desk K
  opened i d = record d {
    manager =
        (pre_register i.parties.call_sid i.call_id i.parties.account_sid i.parties.from i.parties.to
          i.start_time d.manager).0;
    responses = [];
  }

  unwind-Left :
      (i : Invite) (d : Desk K) (o : Desk K × Option Started)
      → load i.call_id d.manager.sessions ≡ none
      → load i.parties.call_sid d.manager.call_sid_idx ≡ none
      → Settled i.answered_at d.manager.next (opened i d).manager d.pool o
      → Left i d (unwind sink decode ask cfg i d.manager.next o)
  unfolding unwind pre_register shell
  unwind-Left i d (t, none) free_id free_sid h =
      let r = d.manager.next in
      let uncleaned : t.manager.cleaned r ≡ false =
        ap (λ (c : ℕ → Bool). c r) h.touched.cleaned ∙ ground (arith, eq_self r) in
      let gone = cleanup-Removed i.cleanup_at i.call_id r t.manager uncleaned in
      let sid : (t.manager.heap r).call_sid ≡ i.parties.call_sid =
        h.touched.call_sid ∙ ground (arith, eq_self r) in
      record {
        sessions = λ k.
            ap (load k) (gone.sessions ∙ ap (delete i.call_id) h.touched.sessions)
            ∙ deleted_free i.call_id k r d.manager.sessions free_id;
        call_sid_idx = λ k.
            ap (load k) (gone.call_sid_idx ∙ ap₂ delete sid h.touched.call_sid_idx)
            ∙ deleted_free i.parties.call_sid k r d.manager.call_sid_idx free_sid;
        gauge = (gone.incs ∙ h.touched.incs, gone.decs ∙ ap suc h.touched.decs);
        others = λ j e. gone.others j e ∙ (h.touched.others j e ∙ ground (arith, e));
        ports = h.ports;
        sent = h.sent;
      }
  unwind-Left i d (t, some s) free_id free_sid h = record {
    listed = ap (load i.parties.call_sid) h.touched.call_sid_idx ∙ load-store_self _ _ _;
    registered = ap (load i.call_id) h.touched.sessions ∙ load-store_self _ _ _;
    others = λ j e. h.touched.others j e ∙ ground (arith, e);
    code = h.code;
    answered = h.answered;
    port = h.port;
    sent = h.sent;
  }

  -- An INVITE with an unused Call-ID and SID, while the pool holds no more ports than its capacity, is
  -- refused or accepted. Refused, the indices find what they found before, the pool has each port as
  -- often, the other sessions are as they were, the gauge is counted up and down, and at most one final
  -- status is sent, of at least 500. Accepted, its session is in both indices with the code 200 and its
  -- time of answer, holds the port that the pool gave, and exactly 100, 180 and 200 are sent.
  pub on_invite-Left :
      (i : Invite) (d : Desk K)
      → length d.pool.ports ≤ d.pool.capacity
      → load i.call_id d.manager.sessions ≡ none
      → load i.parties.call_sid d.manager.call_sid_idx ≡ none
      → Left i d (on_invite sink decode ask cfg i d)
  unfolding on_invite pre_register shell
  on_invite-Left i d room free_id free_sid = unwind-Left i d _ free_id free_sid (
      invited-Settled sink decode ask cfg i d.manager.next (opened i d) room refl
        (ground (arith, eq_self d.manager.next)) (ground (arith, eq_self d.manager.next))
        (load-store_self i.parties.call_sid d.manager.next d.manager.call_sid_idx))
