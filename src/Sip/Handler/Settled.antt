-- ===== src/Sip/Handler/Settled.antt =====
-- go/internal/sip/handler.go, onInvite: what is true at its returns, before the deferred cleanup.
use sipgate_sip_stream_bridg.Prelude.{
  ℕ, ◌≤◌, ◌≡◌, refl, sym, subst, ap, ◌∙◌, String, Bool, true, false, Option, none, some, List, [],
  ◌∷◌, ◌++◌, ◌⊎◌, inl, inr, arith, length, if◌then◌else◌,
}
use sipgate_sip_stream_bridg.Prelude.Text.{Text}
use sipgate_sip_stream_bridg.Prelude.Dict.{load}
use sipgate_sip_stream_bridg.Webhook.Voice.{VoiceClient, VoiceParams, VoiceError}
use sipgate_sip_stream_bridg.Bridge.Ports.{PortPool, acquire, release}
use sipgate_sip_stream_bridg.Bridge.Ports.Same.{SamePorts, acquire_release-SamePorts}
use sipgate_sip_stream_bridg.Bridge.Call.{set_sip_final_code, swap_final_code, set_answered_at}
use sipgate_sip_stream_bridg.Bridge.Manager.{CallManager}
use sipgate_sip_stream_bridg.Sip.Sdp.{CallerSdp}
use sipgate_sip_stream_bridg.Sip.Handler.{StatusSink}
use sipgate_sip_stream_bridg.Sip.Handler.Touched.{
  Touched, Touched-trans, set_session-Touched, Emitted, emit_status_event-Emitted,
}
use sipgate_sip_stream_bridg.Sip.Handler.Invite.{
  HandlerConfig, Invite, Desk, Started, emit, set_code, reject, reject_port, stamp_answered, answer,
  after_extract, after_parse, after_fetch, with_stream, respond, voice_params,
}
use sipgate_sip_stream_bridg.Twiml.Xml.{Tokens, Outcome, ok, failed, out_of_fuel}
use sipgate_sip_stream_bridg.Twiml.Verbs.{Response, extract_stream_url}
use sipgate_sip_stream_bridg.Twiml.Parse.Elements.{Stop, parse}

-- The statuses of an INVITE that is refused: one final one, before or after the ringing, or none after
-- it, if the answer could not be sent.
pub data IsRefusal : List ℕ → Type 0 where
  at_once : {code : ℕ} → 500 ≤ code → IsRefusal (code ∷ [])
  after_ringing : IsRefusal (100 ∷ 180 ∷ 503 ∷ [])
  unsent : IsRefusal (100 ∷ 180 ∷ [])

-- The manager `m` and the pool `p` are those after the registration.
pub record Refused {κ} {K : Type κ} (r : ℕ) (m : CallManager) (p : PortPool) (d : Desk K)
    : Type 0 where
  pub touched : Touched r m d.manager
  pub ports : SamePorts p d.pool
  pub sent : IsRefusal d.responses

pub record Accepted {κ} {K : Type κ} (at r : ℕ) (m : CallManager) (p : PortPool) (s : Started)
    (d : Desk K) : Type 0 where
  pub touched : Touched r m d.manager
  pub port : acquire p ≡ (d.pool, some s.port)
  pub sent : d.responses ≡ 100 ∷ 180 ∷ 200 ∷ []
  pub code : (d.manager.heap r).sip_final_code ≡ 200
  pub answered : (d.manager.heap r).answered_at ≡ some at

abbrev pub Settled {κ} :
    {K : Type κ} (at r : ℕ) (m : CallManager) (p : PortPool) → Desk K × Option Started → Type 0
Settled at r m p (d, none) = Refused r m p d
Settled at r m p (d, some s) = Accepted at r m p s d

module _ {κ} {K : Type κ} (sink : StatusSink K) (decode : Text → Tokens × Stop)
    (ask : VoiceClient → VoiceParams → VoiceClient × (VoiceError ⊎ (Text × String)))
    (cfg : HandlerConfig) (i : Invite) (r : ℕ) where
  pub emit-Emitted :
      (name call_status : String) (now : ℕ) (d : Desk K)
      → load i.parties.call_sid d.manager.call_sid_idx ≡ some r
      → Emitted r d.manager (emit sink decode ask cfg i r name call_status now d).manager
  unfolding emit
  emit-Emitted name call_status now d h =
      emit_status_event-Emitted sink cfg.wired i.parties name call_status now r d.manager d.sink h

  set_code-Touched :
      (code : ℕ) (d : Desk K)
      → Touched r d.manager (set_code sink decode ask cfg i r code d).manager
  unfolding set_code set_sip_final_code
  set_code-Touched code d = set_session-Touched r _ d.manager (ground arith)

  set_code-200 :
      (d : Desk K)
      → (d.manager.heap r).sip_final_code ≡ 0
      → (((set_code sink decode ask cfg i r 200 d).manager.heap r).sip_final_code ≡ 200)
        × (((set_code sink decode ask cfg i r 200 d).manager.heap r).answered_at
            ≡ (d.manager.heap r).answered_at)
  unfolding set_code set_sip_final_code swap_final_code
  set_code-200 d h = ground (arith, h)

  stamp_answered-at :
      (d : Desk K)
      → (d.manager.heap r).answered_at ≡ none
      → (((stamp_answered sink decode ask cfg i r d).manager.heap r).answered_at
          ≡ some i.answered_at)
        × (((stamp_answered sink decode ask cfg i r d).manager.heap r).sip_final_code
            ≡ (d.manager.heap r).sip_final_code)
  unfolding stamp_answered set_answered_at
  stamp_answered-at d h = ground (arith, h)

  stamp_answered-Touched :
      (d : Desk K) → Touched r d.manager (stamp_answered sink decode ask cfg i r d).manager
  unfolding stamp_answered set_answered_at
  stamp_answered-Touched d = set_session-Touched r _ d.manager refl

  -- A refusal while no port is held.
  pub reject-Settled :
      (m : CallManager) (p : PortPool) (code : ℕ) (d : Desk K)
      → Touched r m d.manager
      → SamePorts p d.pool
      → IsRefusal (d.responses ++ code ∷ [])
      → Settled i.answered_at r m p (reject sink decode ask cfg i r code d)
  unfolding reject
  reject-Settled m p code d t ports sent = record {
    touched = Touched-trans r m d.manager _ t (set_code-Touched code d);
    ports = ports;
    sent = sent;
  }

  -- The call rings: a port is held, nothing but 100 and 180 is sent, and the session has no code yet.
  pub record Ringing (m : CallManager) (p : PortPool) (port : ℕ) (d : Desk K) : Type κ where
    pub touched : Touched r m d.manager
    pub held : acquire p ≡ (d.pool, some port)
    pub room : length p.ports ≤ p.capacity
    pub sent : d.responses ≡ 100 ∷ 180 ∷ []
    pub code : (d.manager.heap r).sip_final_code ≡ 0
    pub answered : (d.manager.heap r).answered_at ≡ none
    pub listed : load i.parties.call_sid d.manager.call_sid_idx ≡ some r

  ports_back :
      (m : CallManager) (p : PortPool) (port : ℕ) (d : Desk K)
      → Ringing m p port d
      → SamePorts p (release port d.pool)
  ports_back m p port d h =
      subst (λ (q : PortPool × Option ℕ). SamePorts p (release port q.0)) h.held
        (acquire_release-SamePorts p port h.room (ap (λ (q : PortPool × Option ℕ). q.1) h.held))

  reject_port-Settled :
      (m : CallManager) (p : PortPool) (port : ℕ) (d : Desk K)
      → Ringing m p port d
      → Settled i.answered_at r m p (reject_port sink decode ask cfg i r port d)
  unfolding reject_port set_code
  reject_port-Settled m p port d h = record {
    touched = Touched-trans r m d.manager _ h.touched (set_code-Touched 503 d);
    ports = ports_back m p port d h;
    sent = subst (λ rs. IsRefusal (rs ++ 503 ∷ [])) (sym h.sent) after_ringing;
  }

  pub Settled-if :
      (m : CallManager) (p : PortPool) (b : Bool) (x y : Desk K × Option Started)
      → Settled i.answered_at r m p x
      → Settled i.answered_at r m p y
      → Settled i.answered_at r m p (if b then x else y)
  Settled-if m p true x y hx hy = hx
  Settled-if m p false x y hx hy = hy

  answer-Settled :
      (m : CallManager) (p : PortPool) (port : ℕ) (sdp : CallerSdp) (d : Desk K) (url : Text)
      (params : List (Text × Text))
      → Ringing m p port d
      → Settled i.answered_at r m p (answer sink decode ask cfg i r port sdp d url params)
  unfolding answer emit set_code stamp_answered
  answer-Settled m p port sdp d url params h =
      let coded = set_code sink decode ask cfg i r 200 (respond sink decode ask cfg i r 200 d) in
      let stamped = stamp_answered sink decode ask cfg i r coded in
      let (code, kept) = set_code-200 (respond sink decode ask cfg i r 200 d) h.code in
      let (answered, same) = stamp_answered-at coded (kept ∙ h.answered) in
      let moved =
        Touched-trans r d.manager coded.manager stamped.manager (set_code-Touched 200 d)
          (stamp_answered-Touched coded) in
      let listed = ap (load i.parties.call_sid) moved.call_sid_idx ∙ h.listed in
      let last = emit-Emitted "answered" "in-progress" i.answered_at stamped listed in
      Settled-if m p i.respond_sdp_fails _ _
        (record {
          touched = Touched-trans r m d.manager _ h.touched (set_code-Touched 503 d);
          ports = ports_back m p port d h;
          sent = subst IsRefusal (sym h.sent) unsent;
        })
        (record {
          touched =
              Touched-trans r m d.manager _ h.touched
                (Touched-trans r d.manager stamped.manager _ moved last.touched);
          port = h.held;
          sent = ap (λ rs. rs ++ 200 ∷ []) h.sent;
          code = last.code ∙ (same ∙ code);
          answered = last.answered ∙ answered;
        })

  Ringing-voice :
      (m : CallManager) (p : PortPool) (port : ℕ) (d : Desk K) (c : VoiceClient)
      → Ringing m p port d
      → Ringing m p port (record d { voice = some c })
  Ringing-voice m p port d c h = record {
    touched = h.touched;
    held = h.held;
    room = h.room;
    sent = h.sent;
    code = h.code;
    answered = h.answered;
    listed = h.listed;
  }

  after_parse-Settled :
      (m : CallManager) (p : PortPool) (port : ℕ) (sdp : CallerSdp) (d : Desk K)
      (o : Outcome Response)
      → Ringing m p port d
      → Settled i.answered_at r m p (after_parse sink decode ask cfg i r port sdp d o)
  unfolding after_parse
  after_parse-Settled m p port sdp d (ok doc) h = extracted (extract_stream_url doc.verbs)
    where
      extracted :
          (o : Option (Text × List (Text × Text)))
          → Settled i.answered_at r m p (after_extract sink decode ask cfg i r port sdp d o)
      extracted none = reject_port-Settled m p port d h
      extracted (some (url, params)) = answer-Settled m p port sdp d url params h
  after_parse-Settled m p port sdp d (failed e) h = reject_port-Settled m p port d h
  after_parse-Settled m p port sdp d out_of_fuel h = reject_port-Settled m p port d h

  pub with_stream-Settled :
      (m : CallManager) (p : PortPool) (port : ℕ) (sdp : CallerSdp) (d : Desk K)
      (v : Option VoiceClient)
      → Ringing m p port d
      → Settled i.answered_at r m p (with_stream sink decode ask cfg i r port sdp d v)
  unfolding with_stream after_fetch
  with_stream-Settled m p port sdp d none h = answer-Settled m p port sdp d cfg.ws_target_url [] h
  with_stream-Settled m p port sdp d (some c) h =
      fetched (ask c (voice_params sink decode ask cfg i r))
    where
      fetched :
          (o : VoiceClient × (VoiceError ⊎ (Text × String)))
          → Settled i.answered_at r m p (after_fetch sink decode ask cfg i r port sdp d o)
      fetched (c', inl e) =
          reject_port-Settled m p port (record d { voice = some c' })
            (Ringing-voice m p port d c' h)
      fetched (c', inr (body, used)) =
          after_parse-Settled m p port sdp (record d { voice = some c' })
            (parse (length body) (decode body).0 (decode body).1) (Ringing-voice m p port d c' h)
