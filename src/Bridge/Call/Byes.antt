-- ===== src/Bridge/Call/Byes.antt =====
-- The BYEs that Terminate of session.go sends through Leg.bye of leg.go.
use sipgate_sip_stream_bridg.Prelude.{
  ℕ, ◌≡◌, refl, String, true, false, Option, none, some, List, [], ◌∷◌, ◌++◌, arith, if◌then◌else◌,
  ◌∙◌,
}
use sipgate_sip_stream_bridg.Bridge.Leg.{Leg, bye, dialog_list, new_callee_leg}
use sipgate_sip_stream_bridg.Bridge.Call.{CallSession}
use sipgate_sip_stream_bridg.Bridge.Call.Callback.{mark_terminated}
use sipgate_sip_stream_bridg.Bridge.Call.Frame.{mark_terminated-SameMedia}
use mathlib.Core.List.{append-nil}
use sipgate_sip_stream_bridg.Bridge.Call.Lifecycle.{bye_legs, terminate, set_at, set_leg}

-- The dialogs of the legs that have sent no BYE yet.
abbrev pub pending : List (Option Leg) → List ℕ
pending [] = []
pending (none ∷ ls) = pending ls
pending (some l ∷ ls) = (if l.terminate_once then [] else dialog_list l.dialog) ++ pending ls

abbrev IsDone : Option Leg → Type 0
IsDone none = Unit
IsDone (some l) = l.terminate_once ≡ true

bye-sent :
    (l : Leg)
    → ((bye l).1 ≡ (if l.terminate_once then [] else dialog_list l.dialog))
      × ((bye l).0.terminate_once ≡ true)
unfolding bye
bye-sent l = ground arith

bye_legs-pending : (ls : List (Option Leg)) → (bye_legs ls).1 ≡ pending ls
unfolding bye_legs
bye_legs-pending [] = refl
bye_legs-pending (none ∷ ls) = bye_legs-pending ls
bye_legs-pending (some l ∷ ls) = rw ((bye-sent l).0, bye_legs-pending ls) refl

bye_legs-done : (ls : List (Option Leg)) → pending (bye_legs ls).0 ≡ []
unfolding bye_legs
bye_legs-done [] = refl
bye_legs-done (none ∷ ls) = bye_legs-done ls
bye_legs-done (some l ∷ ls) = rw (bye-sent l).1 (bye_legs-done ls)

-- Terminate sends exactly the BYEs that are pending, one to each leg with a dialog that has sent none,
-- and leaves none pending, whatever its reason and however often the call has ended before.
pub terminate_byes {ℓ} :
    {E : Type ℓ} (fails : ℕ → Option E) (reason : String) (now : ℕ) (s : CallSession)
    → let t = (terminate fails reason now s).0 in
      (t.byes ≡ s.byes ++ pending s.legs) × (pending t.legs ≡ [])
unfolding terminate
terminate_byes fails reason now s =
    let m = mark_terminated-SameMedia reason now s in
    (
      rw (bye_legs-pending (mark_terminated reason now s).legs, m.byes, m.legs) refl,
      bye_legs-done (mark_terminated reason now s).legs,
    )

-- A second Terminate sends nothing more.
pub terminate_twice {ℓ} :
    {E : Type ℓ} (fails : ℕ → Option E) (r1 r2 : String) (now later : ℕ) (s : CallSession)
    → (terminate fails r2 later (terminate fails r1 now s).0).0.byes
      ≡ (terminate fails r1 now s).0.byes
terminate_twice fails r1 r2 now later s =
    let t = (terminate fails r1 now s).0 in
    (terminate_byes fails r2 later t).0 ∙ rw (terminate_byes fails r1 now s).1 (append-nil t.byes)

-- The callee leg of a <Dial> has no dialog of the bridge, so that Terminate sends it no BYE: of a call
-- with an inbound leg and a fresh callee leg only the dialog of the inbound leg gets one.
pub terminate_callee {ℓ} :
    {E : Type ℓ} (fails : ℕ → Option E) (reason : String) (now rtp_port d : ℕ) (ip : String)
    (inbound : Leg) (s : CallSession)
    → inbound.dialog ≡ some d
    → inbound.terminate_once ≡ false
    → s.legs ≡ some inbound ∷ []
    → s.byes ≡ []
    → (terminate fails reason now (set_leg 1 (some (new_callee_leg rtp_port ip)) s)).0.byes ≡ d ∷ []
unfolding set_leg new_callee_leg set_at
terminate_callee fails reason now rtp_port d ip inbound s has_dialog live only none_yet =
    (terminate_byes fails reason now (set_leg 1 (some (new_callee_leg rtp_port ip)) s)).0
    ∙ rw (only, none_yet, has_dialog, live) refl
