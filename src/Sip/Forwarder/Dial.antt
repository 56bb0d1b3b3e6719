-- ===== src/Sip/Forwarder/Dial.antt =====
-- go/internal/sip/forwarder.go, Dial. What the network answers is an argument: the codes that reach the
-- onResponse hook, how the INVITE ends, whether the ACK fails, and what ends the dialog. Of an error
-- that Dial returns only that it is one is kept; recordFailure is given its message. The hook may get
-- responses even after Dial has returned, when its watchdog gave up; those are left out. Log lines and
-- contexts are left out.
pub mod Story
pub mod Ended
pub mod Branches
use sipgate_sip_stream_bridg.Prelude.{
  ℕ, zero, suc, ◌+◌, ◌-◌, ◌*◌, ◌<◌, ◌≡◌, String, Bool, true, false, not, ◌&&◌, ◌||◌, Option, none,
  some, List, [], ◌∷◌, ◌++◌, ◌⊎◌, inl, inr, ltb, ◌==◌, str_eq, if◌then◌else◌,
}
use sipgate_sip_stream_bridg.Prelude.Text.{Text, codes, trim_space, is_empty, same}
use sipgate_sip_stream_bridg.Sip.Guardrails.{Guardrails, DialError, check_dial, normalize_target}
use sipgate_sip_stream_bridg.Sip.Forwarder.CallerId.{
  SipUri, resolve_caller_id, resolve_display_caller_id, normalise_trunk_caller_id, target_uri,
  from_uri,
}
use sipgate_sip_stream_bridg.Sip.Forwarder.Emit.{
  DialOpts, DialResult, SipAction, invite, ack, bye, close, ForwarderConfig, Forwarder, LegId,
  leg_of, emit_dial_event, release_leg_sequence, finish_leg, guardrails_reason,
  dispatch_final_response, record_failure,
}
use sipgate_sip_stream_bridg.Observability.{bucket_outcome}
use sipgate_sip_stream_bridg.Sip.Forwarder.Invite.{
  LegConfigurer, InviteEnd, answered, no_response, rejected, deadline, cancelled, other_error,
  ring_timeout, await_dialog_end, World, invite_of,
}

-- The forwarder, the leg, the result, and whether "ringing" went out (the sync.Once).
pub record Run {ℓ} (S : Type ℓ) : Type ℓ where
  pub forwarder : Forwarder
  pub leg : S
  pub result : DialResult
  pub rang : Bool

abbrev pub act {ℓ} : {S : Type ℓ} → List SipAction → Run S → Run S
act actions r = record r { forwarder = record r.forwarder { sip = r.forwarder.sip ++ actions } }

abbrev pub with_result {ℓ} : {S : Type ℓ} → String → String → Run S → Run S
with_result status reason r = record r {
  result = record r.result { status = status; reason = reason };
}

module _ {ℓ} {S : Type ℓ} (leg : LegConfigurer S) (opts : DialOpts) (caller_sid : String)
    (w : World opts) where
  unfoldable pub fail : Text → Run S → Run S × Bool
  unfolding record_failure
  fail message r =
      let (f, result) = record_failure message w.ended_at opts caller_sid r.result r.forwarder in
      (record r { forwarder = f; result = result }, true)

  -- The function of ringingOnce.
  unfoldable pub ring_once : Run S → Run S
  unfolding emit_dial_event
  ring_once r = if r.rang then r else record r {
    rang = true;
    forwarder =
        emit_dial_event opts "ringing" "ringing" (leg_of caller_sid r.result) w.ringing_at
          r.forwarder;
  }

  -- onResponse: one response, provisional or final.
  unfoldable pub on_response : ℕ → Run S → Run S
  unfolding ring_once
  on_response code r =
      if code == 180 || code == 183
      then ring_once r
      else if code == 401
      then record r {
        result = record r.result { auth_challenge = "401" };
        forwarder = record r.forwarder { challenges = r.forwarder.challenges ++ "401" ∷ [] };
      }
      else if code == 407
      then record r {
        result = record r.result { auth_challenge = "407" };
        forwarder = record r.forwarder { challenges = r.forwarder.challenges ++ "407" ∷ [] };
      }
      else r

  unfoldable pub on_responses : List ℕ → Run S → Run S
  unfolding on_response
  on_responses [] r = r
  on_responses (c ∷ cs) r = on_responses cs (on_response c r)

  -- The dual-leg phase, to the end.
  unfoldable pub bridged : Run S → Run S × Bool
  unfolding emit_dial_event await_dialog_end finish_leg bucket_outcome
  bridged r =
      let id = leg_of caller_sid r.result in
      let won = record r.forwarder { successes = suc r.forwarder.successes } in
      let up = emit_dial_event opts "answered" "in-progress" id w.answered_at won in
      let (status, byes) = await_dialog_end opts w.wake in
      let over = record up {
        sip = up.sip ++ byes;
        outcomes = up.outcomes ++ bucket_outcome "answered" ∷ [];
      } in
      (
        record r {
          forwarder =
              finish_leg r.result.dial_call_sid
                (emit_dial_event opts "completed" "completed" id w.ended_at over);
          result = record r.result { status = status; duration = w.talk_time };
        },
        false,
      )

  unfoldable pub after_on_answered : Run S → S × Option Text → Run S × Bool
  unfolding fail bridged
  after_on_answered r (s, some e) =
      fail (codes "forwarder: OnAnswered: " ++ e)
        (with_result "failed" "error" (act (bye ∷ []) (record r { leg = s })))
  after_on_answered r (s, none) = bridged (record r { leg = s })

  unfoldable pub after_ack : Run S → Option Text → Run S × Bool
  unfolding fail after_on_answered
  after_ack r (some e) =
      fail (codes "forwarder: ACK after 200 OK: " ++ e) (with_result "failed" "error" r)
  after_ack r none = after_on_answered r (leg.on_answered r.leg)

  -- A 200 OK, from AcceptSDPAnswer on. An ACK is sent on both branches, before anything else.
  unfoldable pub after_answer : Run S → S × Option Text → Run S × Bool
  unfolding fail after_ack
  after_answer r (s, some e) =
      fail (codes "forwarder: " ++ e)
        (with_result "failed" "codec_mismatch" (act (ack ∷ bye ∷ []) (record r { leg = s })))
  after_answer r (s, none) = after_ack (act (ack ∷ []) (record r { leg = s })) w.ack_error

  -- The deferred Close, if there is a DialClient.
  unfoldable pub closing : Bool → Run S × Bool → Run S × Bool
  closing true (r, e) = (act (close ∷ []) r, e)
  closing false (r, e) = (r, e)

  unfoldable pub after_invite : InviteEnd → Run S → Run S × Bool
  unfolding fail after_answer closing dispatch_final_response on_responses
  after_invite (rejected response e client) r = closing client (
      fail (codes "forwarder: dial: " ++ e)
        (record r { result = dispatch_final_response response r.result }))
  after_invite (deadline e client) r =
      closing client (fail e (with_result "no-answer" "no_answer" r))
  after_invite ring_timeout r =
      let (t, e) =
        fail (codes "forwarder: ring timeout: context deadline exceeded")
          (with_result "no-answer" "no_answer" r) in
      (on_responses w.late t, e)
  after_invite (cancelled e client) r =
      closing client (fail e (with_result "canceled" "canceled" r))
  after_invite (other_error e client) r = closing client (fail e (with_result "failed" "error" r))
  after_invite no_response r = closing true (
      fail (codes "forwarder: dial succeeded but final response missing")
        (with_result "failed" "error" r))
  after_invite (answered code body) r =
      let known = record r { result = record r.result { sip_final_code = code } } in
      closing true (
        if code == 200
        then after_answer known (leg.accept_sdp_answer body known.leg)
        else fail (codes "forwarder: unexpected non-2xx final")
            (with_result "failed" "error" known))

  unfoldable pub after_offer : Text → Text → Run S → S × (Text ⊎ List ℕ) → Run S × Bool
  unfolding fail on_responses after_invite invite_of
  after_offer target caller_id r (s, inl e) =
      fail (codes "forwarder: build SDP offer: " ++ e) (record r { leg = s })
  after_offer target caller_id r (s, inr offer) = after_invite w.invite_end (
      on_responses w.responses
        (act (invite_of r.forwarder.cfg opts target caller_id offer ∷ []) (record r { leg = s })))

  unfoldable pub with_caller_id : Text → Option Text → Run S → Run S × Bool
  unfolding fail after_offer
  with_caller_id target none r = fail (codes "forwarder: caller-id required (13214)") r
  with_caller_id target (some caller_id) r =
      after_offer target caller_id r (leg.build_sdp_offer r.leg)

  -- The deferred ReleaseLegSequence.
  unfoldable pub releasing : Run S × Bool → Run S × Bool
  unfolding release_leg_sequence
  releasing (r, e) = (record r { forwarder = release_leg_sequence w.dial_call_sid r.forwarder }, e)

  -- A dial that the guardrails admit.
  unfoldable pub admitted : Text → Run S → Run S × Bool
  unfolding emit_dial_event releasing with_caller_id resolve_caller_id
  admitted target r =
      let counted = record r.forwarder { attempts = suc r.forwarder.attempts } in
      let cfg = r.forwarder.cfg in
      releasing (
        with_caller_id target
          (resolve_caller_id opts.caller_id opts.caller_from cfg.dial_default_caller_id
            cfg.sip_user)
          (record r {
            forwarder =
                emit_dial_event opts "initiated" "queued" (leg_of caller_sid r.result)
                  w.initiated_at counted;
          }))

  unfoldable pub screened : Text → Run S → Option DialError → Run S × Bool
  unfolding admitted guardrails_reason bucket_outcome
  screened target r none = admitted target r
  screened target r (some e) = (
    record (with_result "failed" (guardrails_reason e) r) {
      forwarder = record r.forwarder {
        failed = r.forwarder.failed ++ guardrails_reason e ∷ [];
        outcomes = r.forwarder.outcomes ++ bucket_outcome "failed" ∷ [];
      };
    },
    true,
  )

  abbrev pub new_result : Text → DialResult
  new_result target = record {
    status = "";
    reason = "";
    dial_call_sid = w.dial_call_sid;
    duration = 0;
    sip_final_code = 0;
    dialed_target = normalize_target target;
    auth_challenge = "";
  }

  unfoldable pub dial : Text → Forwarder → S → Run S × Bool
  unfolding screened
  dial target f s =
      let (guardrails, error) = check_dial w.now caller_sid target f.guardrails in
      screened target
        (record {
          forwarder = record f { guardrails = guardrails };
          leg = s;
          result = new_result target;
          rang = false;
        })
        error
