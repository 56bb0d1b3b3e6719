-- ===== src/Api/MidCall/PortKept.antt =====
-- go/internal/api/midcall_adapter.go with go/internal/twiml/verb_dial.go: a document run on a live
-- call gives back the RTP port that it took.
use sipgate_sip_stream_bridg.Prelude.{
  ℕ, ◌≤◌, ◌≡◌, refl, subst, ap, String, Option, none, some, List, [], ◌∷◌, inl, inr, length,
  Bool-cases,
}
use sipgate_sip_stream_bridg.Prelude.Text.{Text, is_empty}
use sipgate_sip_stream_bridg.Bridge.Ports.{PortPool, acquire, release}
use sipgate_sip_stream_bridg.Bridge.Ports.Same.{
  SamePorts, SamePorts-refl, acquire_release-SamePorts, acquire-none,
}
use sipgate_sip_stream_bridg.Bridge.Call.Lifecycle.{close_stream}
use sipgate_sip_stream_bridg.Twiml.Verbs.{
  Dial, Verb, Response, connect, dial, hangup, redirect, reject, unknown_verb, resolve_dial_target,
}
use sipgate_sip_stream_bridg.Twiml.Dispatch.{
  DialOpts, DialTarget, hangup_handler, dial_handler, dial_with, dial_prepared, dial_opts,
  walk_verbs, dispatch,
}
use sipgate_sip_stream_bridg.Bridge.Call.Callee.{Outside}
use sipgate_sip_stream_bridg.Sip.Forwarder.Emit
use sipgate_sip_stream_bridg.Sip.Forwarder.Invite.{World}
use sipgate_sip_stream_bridg.Api.MidCall.{
  Live, DialHandle, adapter, prepare_dial, install_leg, release_handle, terminate_call,
  perform_dial, dialled, fire_action_callback,
}

-- A dial takes no port and gives none back, whatever the network does.
perform_dial_pool :
    (outside : Outside) (world : (opts : Emit.DialOpts) → World opts) (target : Text)
    (opts : DialOpts) (h : DialHandle) (l : Live)
    → (perform_dial outside world target opts h l).0.pool ≡ l.pool
unfolding perform_dial dialled fire_action_callback
perform_dial_pool outside world target opts h l = elim (Bool-cases (is_empty opts.action)) [
  | inl e ↦ rw e refl
  | inr e ↦ rw e refl
]

module _ (fails : ℕ → Option String) (contact_ip : String) (outside : Outside)
    (world : (opts : Emit.DialOpts) → World opts) where
  abbrev dialing_target : DialTarget Live DialHandle
  dialing_target = record {
    prepare_dial = prepare_dial contact_ip;
    perform_dial = perform_dial outside world;
    release = release_handle;
  }

  dial_with-SamePorts :
      (target : Text) (opts : DialOpts) (l : Live) (o : PortPool × Option ℕ)
      → length l.pool.ports ≤ l.pool.capacity
      → acquire l.pool ≡ o
      → SamePorts l.pool
          (dial_with
            (adapter fails contact_ip outside world)
            dialing_target
            target
            opts
            (install_leg contact_ip (close_stream "dial-forward" l.session) l o)).0.pool
  unfolding dial_with dial_prepared install_leg adapter terminate_call release_handle
  dial_with-SamePorts target opts l (pool, none) room e =
      subst (SamePorts l.pool) (acquire-none l.pool pool e) (SamePorts-refl l.pool)
  dial_with-SamePorts target opts l (pool, some port) room e =
      rw (perform_dial_pool outside world target opts (record { port = port }) _) (
        subst (λ q. SamePorts l.pool (release port q)) (ap (λ (x : PortPool × Option ℕ). x.0) e)
          (acquire_release-SamePorts l.pool port room (ap (λ (x : PortPool × Option ℕ). x.1) e)))

  dial_handler-SamePorts :
      (d : Dial) (l : Live)
      → length l.pool.ports ≤ l.pool.capacity
      → SamePorts l.pool
          (dial_handler (adapter fails contact_ip outside world) dialing_target d l).0.pool
  unfolding dial_handler adapter prepare_dial
  dial_handler-SamePorts d l room = elim (Bool-cases (is_empty (resolve_dial_target d).0)) [
    | inl e ↦ rw e (SamePorts-refl l.pool)
    | inr e ↦
        rw e
          (dial_with-SamePorts (resolve_dial_target d).0 (dial_opts d) l (acquire l.pool) room refl)
  ]

  hangup_pool :
      (l : Live)
      → SamePorts l.pool (hangup_handler (adapter fails contact_ip outside world) l).0.pool
  unfolding hangup_handler adapter terminate_call
  hangup_pool l = SamePorts-refl l.pool

  walk_verbs-SamePorts :
      (vs : List Verb) (l : Live)
      → length l.pool.ports ≤ l.pool.capacity
      → SamePorts l.pool
          (walk_verbs (adapter fails contact_ip outside world) (some dialing_target) vs l).0.pool
  unfolding walk_verbs
  walk_verbs-SamePorts [] l room = SamePorts-refl l.pool
  walk_verbs-SamePorts (hangup ∷ vs) l room = hangup_pool l
  walk_verbs-SamePorts (dial d ∷ vs) l room = dial_handler-SamePorts d l room
  walk_verbs-SamePorts (connect c ∷ vs) l room = walk_verbs-SamePorts vs l room
  walk_verbs-SamePorts (redirect c ∷ vs) l room = walk_verbs-SamePorts vs l room
  walk_verbs-SamePorts (reject c ∷ vs) l room = walk_verbs-SamePorts vs l room
  walk_verbs-SamePorts (unknown_verb c ∷ vs) l room = walk_verbs-SamePorts vs l room

  -- Whatever the document says and however its dial goes, a document run on a live call leaves in the
  -- port pool each port as often as before, if the pool holds no more ports than its capacity.
  pub dispatch-SamePorts :
      (doc : Option Response) (l : Live)
      → length l.pool.ports ≤ l.pool.capacity
      → SamePorts l.pool (dispatch (adapter fails contact_ip outside world) doc l).0.pool
  unfolding dispatch adapter
  dispatch-SamePorts none l room = SamePorts-refl l.pool
  dispatch-SamePorts (some doc) l room = walk_verbs-SamePorts doc.verbs l room
