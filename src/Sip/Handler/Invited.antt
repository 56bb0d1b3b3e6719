-- ===== src/Sip/Handler/Invited.antt =====
-- go/internal/sip/handler.go, onInvite: every way through it, from the registration to its return.
use sipgate_sip_stream_bridg.Prelude.{
  ℕ, ◌≤◌, ◌≡◌, refl, sym, subst, ap, ◌∙◌, String, Option, none, some, [], ◌∷◌, ◌++◌, ◌⊎◌, arith,
  length,
}
use sipgate_sip_stream_bridg.Prelude.Text.{Text}
use sipgate_sip_stream_bridg.Prelude.Dict.{load}
use sipgate_sip_stream_bridg.Webhook.Voice.{VoiceClient, VoiceParams, VoiceError}
use sipgate_sip_stream_bridg.Bridge.Ports.{PortPool, acquire}
use sipgate_sip_stream_bridg.Bridge.Ports.Same.{SamePorts, SamePorts-refl, acquire-none}
use sipgate_sip_stream_bridg.Bridge.Manager.{CallManager}
use sipgate_sip_stream_bridg.Sip.Sdp.{CallerSdp}
use sipgate_sip_stream_bridg.Sip.Handler.{StatusSink}
use sipgate_sip_stream_bridg.Sip.Handler.Touched.{Touched, Touched-trans}
use sipgate_sip_stream_bridg.Sip.Handler.Invite.{
  HandlerConfig, Invite, Desk, emit, reject, after_port, after_sdp, invited, respond,
}
use sipgate_sip_stream_bridg.Twiml.Xml.{Tokens}
use sipgate_sip_stream_bridg.Twiml.Parse.Elements.{Stop}
use sipgate_sip_stream_bridg.Sip.Handler.Settled.{
  at_once, IsRefusal, Settled, emit-Emitted, reject-Settled, with_stream-Settled, Settled-if,
}

module _ {κ} {K : Type κ} (sink : StatusSink K) (decode : Text → Tokens × Stop)
    (ask : VoiceClient → VoiceParams → VoiceClient × (VoiceError ⊎ (Text × String)))
    (cfg : HandlerConfig) (i : Invite) (r : ℕ) where
  -- Before the port: nothing is sent, and the session has no code.
  record Fresh (m : CallManager) (p : PortPool) (d : Desk K) : Type κ where
    touched : Touched r m d.manager
    pool : d.pool ≡ p
    room : length p.ports ≤ p.capacity
    sent : d.responses ≡ []
    code : (d.manager.heap r).sip_final_code ≡ 0
    answered : (d.manager.heap r).answered_at ≡ none
    listed : load i.parties.call_sid d.manager.call_sid_idx ≡ some r

  reject-Fresh :
      (m : CallManager) (p : PortPool) (code : ℕ) (d : Desk K)
      → 500 ≤ code
      → Fresh m p d
      → Settled i.answered_at r m p (reject sink decode ask cfg i r code d)
  reject-Fresh m p code d big h =
      reject-Settled sink decode ask cfg i r m p code d h.touched
        (subst (SamePorts p) (sym h.pool) (SamePorts-refl p))
        (subst (λ rs. IsRefusal (rs ++ code ∷ [])) (sym h.sent) (at_once big))

  after_port-Settled :
      (m : CallManager) (p : PortPool) (sdp : CallerSdp) (d : Desk K) (o : PortPool × Option ℕ)
      → acquire p ≡ o
      → Fresh m p d
      → Settled i.answered_at r m p (after_port sink decode ask cfg i r sdp d o)
  unfolding after_port emit
  after_port-Settled m p sdp d (pool, none) e h =
      reject-Settled sink decode ask cfg i r m p 503 _ h.touched
        (subst (SamePorts p) (acquire-none p pool e) (SamePorts-refl p))
        (subst (λ rs. IsRefusal (rs ++ 503 ∷ [])) (sym h.sent) (at_once (omega arith)))
  after_port-Settled m p sdp d (pool, some port) e h =
      let before =
        respond sink decode ask cfg i r 180
          (respond sink decode ask cfg i r 100 (record d { pool = pool })) in
      let rung =
        emit-Emitted sink decode ask cfg i r "ringing" "ringing" i.ringing_at before h.listed in
      with_stream-Settled sink decode ask cfg i r m p port sdp
        (emit sink decode ask cfg i r "ringing" "ringing" i.ringing_at before) d.voice
        (record {
          touched = Touched-trans r m d.manager _ h.touched rung.touched;
          held = e;
          room = h.room;
          sent = ap (λ rs. (rs ++ 100 ∷ []) ++ 180 ∷ []) h.sent;
          code = rung.code ∙ h.code;
          answered = rung.answered ∙ h.answered;
          listed = ap (load i.parties.call_sid) rung.touched.call_sid_idx ∙ h.listed;
        })

  after_sdp-Settled :
      (m : CallManager) (p : PortPool) (d : Desk K) (sdp : Option CallerSdp)
      → Fresh m p d
      → Settled i.answered_at r m p (after_sdp sink decode ask cfg i r d sdp)
  unfolding after_sdp
  after_sdp-Settled m p d none h = reject-Fresh m p 503 d (omega arith) h
  after_sdp-Settled m p d (some sdp) h =
      after_port-Settled m p sdp d (acquire d.pool) (ap acquire (sym h.pool)) h

  -- Every way through onInvite ends with the call refused or accepted.
  pub invited-Settled :
      (d : Desk K)
      → length d.pool.ports ≤ d.pool.capacity
      → d.responses ≡ []
      → (d.manager.heap r).sip_final_code ≡ 0
      → (d.manager.heap r).answered_at ≡ none
      → load i.parties.call_sid d.manager.call_sid_idx ≡ some r
      → Settled i.answered_at r d.manager d.pool (invited sink decode ask cfg i r d)
  unfolding invited emit
  invited-Settled d room sent code answered listed =
      let told = emit-Emitted sink decode ask cfg i r "initiated" "queued" i.start_time d listed in
      let opened = emit sink decode ask cfg i r "initiated" "queued" i.start_time d in
      let fresh : Fresh d.manager d.pool opened = record {
        touched = told.touched;
        pool = refl;
        room = room;
        sent = sent;
        code = told.code ∙ code;
        answered = told.answered ∙ answered;
        listed = ap (load i.parties.call_sid) told.touched.call_sid_idx ∙ listed;
      } in
      Settled-if sink decode ask cfg i r d.manager d.pool i.shutdown _ _
        (reject-Fresh d.manager d.pool 503 opened (omega arith) fresh)
        (Settled-if sink decode ask cfg i r d.manager d.pool i.read_fails _ _
          (reject-Fresh d.manager d.pool 500 opened (omega arith) fresh)
          (after_sdp-Settled d.manager d.pool opened i.caller_sdp fresh))
