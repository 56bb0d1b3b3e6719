-- ===== src/Sip/Handler/Invite.antt =====
-- go/internal/sip/handler.go, onInvite, cut into functions at its early returns. The SIP library is
-- outside: whether ReadInvite and RespondSDP fail, what ParseCallerSDP gives. `decode` stands for
-- encoding/xml and `ask` for the Voice-URL client's Fetch. Of the SDP answer its payload type is kept.
use sipgate_sip_stream_bridg.Prelude.{
  ℕ, String, Bool, Option, none, some, List, [], ◌∷◌, ◌++◌, ◌⊎◌, inl, inr, if◌then◌else◌, length,
}
use sipgate_sip_stream_bridg.Prelude.Text.{Text}
use sipgate_sip_stream_bridg.Webhook.Voice.{VoiceClient, VoiceParams, VoiceError}
use sipgate_sip_stream_bridg.Bridge.Ports.{PortPool, acquire, release}
use sipgate_sip_stream_bridg.Bridge.Call.{set_sip_final_code, set_answered_at}
use sipgate_sip_stream_bridg.Bridge.Manager.{CallManager, pre_register, cleanup}
use sipgate_sip_stream_bridg.Sip.Sdp.{CallerSdp, negotiated_pt}
use sipgate_sip_stream_bridg.Sip.Handler.{StatusSink, Parties, set_session, emit_status_event}
use sipgate_sip_stream_bridg.Twiml.Xml.{Tokens, Outcome, ok, failed, out_of_fuel}
use sipgate_sip_stream_bridg.Twiml.Verbs.{Response, extract_stream_url}
use sipgate_sip_stream_bridg.Twiml.Parse.Elements.{Stop, parse}

pub record HandlerConfig : Type 0 where
  pub ws_target_url : Text
  pub audio_mode : String
  -- SetStatusEmission has been called.
  pub wired : Bool

-- What reaches the handler in one INVITE, with the times of its events and of the cleanup.
pub record Invite : Type 0 where
  pub parties : Parties
  pub call_id : String
  pub start_time : ℕ
  pub shutdown : Bool
  pub read_fails : Bool
  pub caller_sdp : Option CallerSdp
  pub respond_sdp_fails : Bool
  pub ringing_at : ℕ
  pub answered_at : ℕ
  pub cleanup_at : ℕ

-- What the handler reaches, with the statuses that it has sent, provisional ones included.
pub record Desk {κ} (K : Type κ) : Type κ where
  pub manager : CallManager
  pub sink : K
  pub pool : PortPool
  pub voice : Option VoiceClient
  pub responses : List ℕ

-- The arguments of StartSessionWithPreRegistered that the handler has found.
pub record Started : Type 0 where
  pub port : ℕ
  pub audio_pt : ℕ
  pub stream_url : Text
  pub custom_params : List (Text × Text)

module _ {κ} {K : Type κ} (sink : StatusSink K) (decode : Text → Tokens × Stop)
    (ask : VoiceClient → VoiceParams → VoiceClient × (VoiceError ⊎ (Text × String)))
    (cfg : HandlerConfig) (i : Invite) (r : ℕ) where
  unfoldable pub emit : String → String → ℕ → Desk K → Desk K
  unfolding emit_status_event
  emit name call_status now d =
      let (m, k) =
        emit_status_event sink cfg.wired i.parties name call_status now d.manager d.sink in
      record d { manager = m; sink = k }

  unfoldable pub set_code : ℕ → Desk K → Desk K
  unfolding set_sip_final_code
  set_code code d = record d {
    manager = set_session r (set_sip_final_code code (d.manager.heap r)) d.manager;
  }

  abbrev pub respond : ℕ → Desk K → Desk K
  respond code d = record d { responses = d.responses ++ code ∷ [] }

  abbrev pub release_port : ℕ → Desk K → Desk K
  release_port port d = record d { pool = release port d.pool }

  -- A refusal without a port, and one that gives its port back.
  unfoldable pub reject : ℕ → Desk K → Desk K × Option Started
  unfolding set_code
  reject code d = (respond code (set_code code d), none)

  unfoldable pub reject_port : ℕ → Desk K → Desk K × Option Started
  unfolding set_code release
  reject_port port d = (respond 503 (release_port port (set_code 503 d)), none)

  unfoldable pub stamp_answered : Desk K → Desk K
  unfolding set_answered_at
  stamp_answered d = record d {
    manager = set_session r (set_answered_at i.answered_at (d.manager.heap r)) d.manager;
  }

  -- RespondSDP and what follows; the 200 is sent on the branch without an error.
  unfoldable pub answer :
      ℕ → CallerSdp → Desk K → Text → List (Text × Text) → Desk K × Option Started
  unfolding set_code stamp_answered emit negotiated_pt release
  answer port sdp d url params =
      if i.respond_sdp_fails then (release_port port (set_code 503 d), none) else (
        emit "answered" "in-progress" i.answered_at (stamp_answered (set_code 200 (respond 200 d))),
        some (record {
          port = port;
          audio_pt = negotiated_pt cfg.audio_mode sdp;
          stream_url = url;
          custom_params = params;
        }),
      )

  unfoldable pub after_extract :
      ℕ → CallerSdp → Desk K → Option (Text × List (Text × Text)) → Desk K × Option Started
  unfolding reject_port answer
  after_extract port sdp d none = reject_port port d
  after_extract port sdp d (some (url, params)) = answer port sdp d url params

  unfoldable pub after_parse : ℕ → CallerSdp → Desk K → Outcome Response → Desk K × Option Started
  unfolding reject_port after_extract extract_stream_url
  after_parse port sdp d (ok doc) = after_extract port sdp d (extract_stream_url doc.verbs)
  after_parse port sdp d (failed e) = reject_port port d
  after_parse port sdp d out_of_fuel = reject_port port d

  unfoldable pub after_fetch :
      ℕ
      → CallerSdp
      → Desk K
      → VoiceClient × (VoiceError ⊎ (Text × String))
      → Desk K × Option Started
  unfolding reject_port after_parse parse
  after_fetch port sdp d (c, inl e) = reject_port port (record d { voice = some c })
  after_fetch port sdp d (c, inr (body, used)) =
      let (tokens, stop) = decode body in
      after_parse port sdp (record d { voice = some c }) (parse (length body) tokens stop)

  abbrev pub voice_params : VoiceParams
  voice_params = record {
    call_sid = i.parties.call_sid;
    account_sid = i.parties.account_sid;
    from = i.parties.from;
    to = i.parties.to;
  }

  -- From the Voice-URL block on.
  unfoldable pub with_stream : ℕ → CallerSdp → Desk K → Option VoiceClient → Desk K × Option Started
  unfolding answer after_fetch
  with_stream port sdp d none = answer port sdp d cfg.ws_target_url []
  with_stream port sdp d (some c) = after_fetch port sdp d (ask c voice_params)

  -- 100 Trying, 180 Ringing and the event of the latter.
  unfoldable pub after_port : CallerSdp → Desk K → PortPool × Option ℕ → Desk K × Option Started
  unfolding reject emit with_stream
  after_port sdp d (pool, none) = reject 503 (record d { pool = pool })
  after_port sdp d (pool, some port) =
      let ringing =
        emit "ringing" "ringing" i.ringing_at
          (respond 180 (respond 100 (record d { pool = pool }))) in
      with_stream port sdp ringing ringing.voice

  unfoldable pub after_sdp : Desk K → Option CallerSdp → Desk K × Option Started
  unfolding reject after_port acquire
  after_sdp d none = reject 503 d
  after_sdp d (some sdp) = after_port sdp d (acquire d.pool)

  -- After the registration, to the return.
  unfoldable pub invited : Desk K → Desk K × Option Started
  unfolding emit reject after_sdp
  invited d =
      let d = emit "initiated" "queued" i.start_time d in
      if i.shutdown
      then reject 503 d
      else if i.read_fails
      then reject 500 d
      else after_sdp d i.caller_sdp

  -- The deferred function: the cleanup runs unless the session is started.
  unfoldable pub unwind : Desk K × Option Started → Desk K × Option Started
  unfolding cleanup
  unwind (d, some s) = (d, some s)
  unwind (d, none) = (record d { manager = cleanup i.cleanup_at i.call_id r d.manager }, none)

module _ {κ} {K : Type κ} (sink : StatusSink K) (decode : Text → Tokens × Stop)
    (ask : VoiceClient → VoiceParams → VoiceClient × (VoiceError ⊎ (Text × String)))
    (cfg : HandlerConfig) where
  unfoldable pub on_invite : Invite → Desk K → Desk K × Option Started
  unfolding unwind invited pre_register
  on_invite i d =
      let p = i.parties in
      let (m, r) =
        pre_register p.call_sid i.call_id p.account_sid p.from p.to i.start_time d.manager in
      unwind sink decode ask cfg i r
        (invited sink decode ask cfg i r (record d { manager = m; responses = [] }))
