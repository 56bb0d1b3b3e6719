-- ===== src/Sip/Forwarder/Dial/Branches.antt =====
-- go/internal/sip/forwarder.go, Dial: every way that a dial goes ends in the same account, and a dial
-- that the guardrails reject leaves none.
use mathlib.Core.List.{append-nil}
use sipgate_sip_stream_bridg.Prelude.{
  ℕ, suc, ◌≡◌, refl, sym, ◌∙◌, String, Bool, true, false, Option, none, some, List, [], ◌∷◌, ◌++◌,
  ◌⊎◌, ◌||◌, All, inl, inr, arith, ◌==◌, if◌then◌else◌,
}
use sipgate_sip_stream_bridg.Prelude.Text.{Text, codes}
use sipgate_sip_stream_bridg.Prelude.Dict.{load-delete_self}
use sipgate_sip_stream_bridg.Sip.Guardrails.{DialError, check_dial}
use sipgate_sip_stream_bridg.Sip.Forwarder.Emit.{
  DialOpts, DialResult, ack, bye, Forwarder, leg_of, counter, emit_dial_event, release_leg_sequence,
  guardrails_reason, dispatch_final_response,
}
use sipgate_sip_stream_bridg.Sip.Forwarder.CallerId.{resolve_caller_id}
use sipgate_sip_stream_bridg.Sip.Forwarder.Invite.{
  LegConfigurer, InviteEnd, answered, no_response, rejected, deadline, cancelled, other_error,
  ring_timeout, World, invite_of,
}
use sipgate_sip_stream_bridg.Sip.Forwarder.Dial.{
  Run, act, with_result, fail, ring_once, on_response, on_responses, after_on_answered, after_ack,
  after_answer, closing, after_invite, after_offer, with_caller_id, releasing, admitted, screened,
  new_result, dial,
}
use sipgate_sip_stream_bridg.Sip.Forwarder.Dial.Story.{numbered, sent, emit_dial_event-Tells}
use sipgate_sip_stream_bridg.Sip.Forwarder.Dial.Ended.{
  opening, Going, Over, short, emit_dial_event-counts, fail-Over, bridged-Over,
}

module _ {ℓ} {S : Type ℓ} (leg : LegConfigurer S) (opts : DialOpts) (caller_sid : String)
    (w : World opts) where
  Going-if :
      (f0 : Forwarder) (b : Bool) (p q : Run S)
      → Going leg opts caller_sid w f0 p
      → Going leg opts caller_sid w f0 q
      → Going leg opts caller_sid w f0 (if b then p else q)
  Going-if f0 true p q hp hq = hp
  Going-if f0 false p q hp hq = hq

  ring_once-Going :
      (f0 : Forwarder) (r : Run S)
      → Going leg opts caller_sid w f0 r
      → Going leg opts caller_sid w f0 (ring_once leg opts caller_sid w r)
  unfolding ring_once
  ring_once-Going f0 r h = ringing r.forwarder r.leg r.result r.rang h
    where
      ringing :
          (f : Forwarder) (s : S) (d : DialResult) (rang : Bool)
          → Going leg opts caller_sid w f0
              (record { forwarder = f; leg = s; result = d; rang = rang })
          → Going leg opts caller_sid w f0 (
              ring_once leg opts caller_sid w
                (record { forwarder = f; leg = s; result = d; rang = rang }))
      ringing f s d true h = h
      ringing f s d false (same, told, attempts, successes, failed) =
          let id = leg_of caller_sid d in
          let (a, b, c) = emit_dial_event-counts opts "ringing" "ringing" id w.ringing_at f in
          (
            same,
            emit_dial_event-Tells opts id f0 f (opening leg opts caller_sid w false)
                (record { name = "ringing"; call_status = "ringing"; time = w.ringing_at })
                (short leg opts caller_sid w false) told,
            a ∙ attempts,
            b ∙ successes,
            c ∙ failed,
          )

  on_response-Going :
      (f0 : Forwarder) (code : ℕ) (r : Run S)
      → Going leg opts caller_sid w f0 r
      → Going leg opts caller_sid w f0 (on_response leg opts caller_sid w code r)
  unfolding on_response
  on_response-Going f0 code r h =
      Going-if f0 _ _ _ (ring_once-Going f0 r h)
        (Going-if f0 (code == 401) _ _ h (Going-if f0 (code == 407) _ _ h h))

  on_responses-Going :
      (f0 : Forwarder) (codes : List ℕ) (r : Run S)
      → Going leg opts caller_sid w f0 r
      → Going leg opts caller_sid w f0 (on_responses leg opts caller_sid w codes r)
  unfolding on_responses
  on_responses-Going f0 [] r h = h
  on_responses-Going f0 (c ∷ cs) r h = on_responses-Going f0 cs _ (on_response-Going f0 c r h)

  Over-if :
      (f0 : Forwarder) (b : Bool) (p q : Run S × Bool)
      → Over leg opts caller_sid w f0 p
      → Over leg opts caller_sid w f0 q
      → Over leg opts caller_sid w f0 (if b then p else q)
  Over-if f0 true p q hp hq = hp
  Over-if f0 false p q hp hq = hq

  Over-run-if :
      (f0 : Forwarder) (b : Bool) (p q : Run S) (e : Bool)
      → Over leg opts caller_sid w f0 (p, e)
      → Over leg opts caller_sid w f0 (q, e)
      → Over leg opts caller_sid w f0 ((if b then p else q), e)
  Over-run-if f0 true p q e hp hq = hp
  Over-run-if f0 false p q e hp hq = hq

  after_on_answered-Over :
      (f0 : Forwarder) (r : Run S) (o : S × Option Text)
      → Going leg opts caller_sid w f0 r
      → Over leg opts caller_sid w f0 (after_on_answered leg opts caller_sid w r o)
  unfolding after_on_answered
  after_on_answered-Over f0 r (s, some e) h =
      fail-Over leg opts caller_sid w f0 (codes "forwarder: OnAnswered: " ++ e)
        (with_result "failed" "error" (act (bye ∷ []) (record r { leg = s }))) h
  after_on_answered-Over f0 r (s, none) h =
      bridged-Over leg opts caller_sid w f0 (record r { leg = s }) h

  after_ack-Over :
      (f0 : Forwarder) (r : Run S) (o : Option Text)
      → Going leg opts caller_sid w f0 r
      → Over leg opts caller_sid w f0 (after_ack leg opts caller_sid w r o)
  unfolding after_ack
  after_ack-Over f0 r (some e) h =
      fail-Over leg opts caller_sid w f0 (codes "forwarder: ACK after 200 OK: " ++ e)
        (with_result "failed" "error" r) h
  after_ack-Over f0 r none h = after_on_answered-Over f0 r (leg.on_answered r.leg) h

  after_answer-Over :
      (f0 : Forwarder) (r : Run S) (o : S × Option Text)
      → Going leg opts caller_sid w f0 r
      → Over leg opts caller_sid w f0 (after_answer leg opts caller_sid w r o)
  unfolding after_answer
  after_answer-Over f0 r (s, some e) h =
      fail-Over leg opts caller_sid w f0 (codes "forwarder: " ++ e)
        (with_result "failed" "codec_mismatch" (act (ack ∷ bye ∷ []) (record r { leg = s }))) h
  after_answer-Over f0 r (s, none) h =
      after_ack-Over f0 (act (ack ∷ []) (record r { leg = s })) w.ack_error h

  closing-Over :
      (f0 : Forwarder) (client : Bool) (p : Run S × Bool)
      → Over leg opts caller_sid w f0 p
      → Over leg opts caller_sid w f0 (closing leg opts caller_sid w client p)
  unfolding closing
  closing-Over f0 true (r, e) h = record {
    told = h.told;
    freed = h.freed;
    attempts = h.attempts;
    successes = h.successes;
    failures = h.failures;
  }
  closing-Over f0 false (r, e) h = h

  fail-closing-Over :
      (f0 : Forwarder) (client : Bool) (message : Text) (r : Run S)
      → Going leg opts caller_sid w f0 r
      → Over leg opts caller_sid w f0
          (closing leg opts caller_sid w client (fail leg opts caller_sid w message r))
  fail-closing-Over f0 client message r h =
      closing-Over f0 client _ (fail-Over leg opts caller_sid w f0 message r h)

  -- A response that is neither 180 nor 183 leaves the account as it is.
  on_response-Over :
      (f0 : Forwarder) (code : ℕ) (r : Run S) (e : Bool)
      → (code == 180 || code == 183) ≡ false
      → Over leg opts caller_sid w f0 (r, e)
      → Over leg opts caller_sid w f0 (on_response leg opts caller_sid w code r, e)
  unfolding on_response
  on_response-Over f0 code r e quiet h = rw quiet (
      Over-run-if f0 (code == 401) _ _ e (challenged "401")
        (Over-run-if f0 (code == 407) _ _ e (challenged "407") h))
    where
      challenged :
          (status : String)
          → Over leg opts caller_sid w f0 (
            record r {
              result = record r.result { auth_challenge = status };
              forwarder = record r.forwarder { challenges = r.forwarder.challenges ++ status ∷ [] };
            },
            e,
          )
      challenged status = record {
        told = h.told;
        freed = h.freed;
        attempts = h.attempts;
        successes = h.successes;
        failures = h.failures;
      }

  on_responses-Over :
      (f0 : Forwarder) (codes : List ℕ) (r : Run S) (e : Bool)
      → All (λ c. (c == 180 || c == 183) ≡ false) codes
      → Over leg opts caller_sid w f0 (r, e)
      → Over leg opts caller_sid w f0 (on_responses leg opts caller_sid w codes r, e)
  unfolding on_responses
  on_responses-Over f0 [] r e quiet h = h
  on_responses-Over f0 (c ∷ cs) r e (one, rest) h =
      on_responses-Over f0 cs (on_response leg opts caller_sid w c r) e rest
        (on_response-Over f0 c r e one h)

  -- No 180 or 183 comes between the watchdog's end of the INVITE and the return of Dial.
  abbrev pub NoLateRing : Type 0
  NoLateRing = All (λ c. (c == 180 || c == 183) ≡ false) w.late

  after_invite-Over :
      (quiet : NoLateRing) (f0 : Forwarder) (end : InviteEnd) (r : Run S)
      → Going leg opts caller_sid w f0 r
      → Over leg opts caller_sid w f0 (after_invite leg opts caller_sid w end r)
  unfolding after_invite dispatch_final_response
  after_invite-Over quiet f0 (rejected none e client) r h =
      fail-closing-Over f0 client (codes "forwarder: dial: " ++ e)
        (record r { result = dispatch_final_response none r.result }) h
  after_invite-Over quiet f0 (rejected (some response) e client) r h =
      fail-closing-Over f0 client (codes "forwarder: dial: " ++ e)
        (record r { result = dispatch_final_response (some response) r.result }) h
  after_invite-Over quiet f0 (deadline e client) r h =
      fail-closing-Over f0 client e (with_result "no-answer" "no_answer" r) h
  after_invite-Over quiet f0 ring_timeout r h = on_responses-Over f0 w.late _ _ quiet (
      fail-Over leg opts caller_sid w f0
        (codes "forwarder: ring timeout: context deadline exceeded")
        (with_result "no-answer" "no_answer" r) h)
  after_invite-Over quiet f0 (cancelled e client) r h =
      fail-closing-Over f0 client e (with_result "canceled" "canceled" r) h
  after_invite-Over quiet f0 (other_error e client) r h =
      fail-closing-Over f0 client e (with_result "failed" "error" r) h
  after_invite-Over quiet f0 no_response r h =
      fail-closing-Over f0 true (codes "forwarder: dial succeeded but final response missing")
        (with_result "failed" "error" r) h
  after_invite-Over quiet f0 (answered code body) r h =
      let known = record r { result = record r.result { sip_final_code = code } } in
      closing-Over f0 true _ (
        Over-if f0 (code == 200)
          (after_answer leg opts caller_sid w known (leg.accept_sdp_answer body known.leg))
          (fail leg opts caller_sid w (codes "forwarder: unexpected non-2xx final")
            (with_result "failed" "error" known))
          (after_answer-Over f0 known (leg.accept_sdp_answer body known.leg) h)
          (fail-Over leg opts caller_sid w f0 (codes "forwarder: unexpected non-2xx final")
            (with_result "failed" "error" known) h))

  after_offer-Over :
      (quiet : NoLateRing) (f0 : Forwarder) (target caller_id : Text) (r : Run S)
      (o : S × (Text ⊎ List ℕ))
      → Going leg opts caller_sid w f0 r
      → Over leg opts caller_sid w f0 (after_offer leg opts caller_sid w target caller_id r o)
  unfolding after_offer
  after_offer-Over quiet f0 target caller_id r (s, inl e) h =
      fail-Over leg opts caller_sid w f0 (codes "forwarder: build SDP offer: " ++ e)
        (record r { leg = s }) h
  after_offer-Over quiet f0 target caller_id r (s, inr offer) h =
      let sent =
        act (invite_of r.forwarder.cfg opts target caller_id offer ∷ []) (record r { leg = s }) in
      after_invite-Over quiet f0 w.invite_end (on_responses leg opts caller_sid w w.responses sent)
        (on_responses-Going f0 w.responses sent h)

  with_caller_id-Over :
      (quiet : NoLateRing) (f0 : Forwarder) (target : Text) (o : Option Text) (r : Run S)
      → Going leg opts caller_sid w f0 r
      → Over leg opts caller_sid w f0 (with_caller_id leg opts caller_sid w target o r)
  unfolding with_caller_id
  with_caller_id-Over quiet f0 target none r h =
      fail-Over leg opts caller_sid w f0 (codes "forwarder: caller-id required (13214)") r h
  with_caller_id-Over quiet f0 target (some caller_id) r h =
      after_offer-Over quiet f0 target caller_id r (leg.build_sdp_offer r.leg) h

  admitted-Over :
      (quiet : NoLateRing) (f0 : Forwarder) (target : Text) (s : S)
      → counter w.dial_call_sid f0 ≡ 0
      → Over leg opts caller_sid w f0 (
          admitted leg opts caller_sid w target (record {
            forwarder = f0;
            leg = s;
            result = new_result leg opts caller_sid w target;
            rang = false;
          }))
  unfolding admitted releasing release_leg_sequence numbered sent counter
  admitted-Over quiet f0 target s fresh =
      let id = leg_of caller_sid (new_result leg opts caller_sid w target) in
      let f = record f0 { attempts = suc f0.attempts } in
      let (a, b, c) = emit_dial_event-counts opts "initiated" "queued" id w.initiated_at f in
      let told =
        emit_dial_event-Tells opts id f0 f []
          (record { name = "initiated"; call_status = "queued"; time = w.initiated_at })
          (omega arith) (refl, sym (append-nil f0.enqueued), fresh) in
      let h =
        with_caller_id-Over quiet f0 target
          (resolve_caller_id opts.caller_id opts.caller_from f0.cfg.dial_default_caller_id
            f0.cfg.sip_user)
          (record {
            forwarder = emit_dial_event opts "initiated" "queued" id w.initiated_at f;
            leg = s;
            result = new_result leg opts caller_sid w target;
            rang = false;
          })
          (refl, told, a, b, c) in
      record {
        told = h.told;
        freed = load-delete_self w.dial_call_sid _;
        attempts = h.attempts;
        successes = h.successes;
        failures = h.failures;
      }

  -- For a leg whose sequence counter is not in use, a dial that the guardrails admit, and no 180 or 183
  -- between the watchdog's end of the INVITE and the return of Dial: when Dial returns, what was enqueued for the leg are the subscribed ones of "initiated", "ringing" if a 180 or
  -- 183 came, then "answered" and "completed" if Dial returns no error, and else the one event of its
  -- status, with the sequence numbers 0, 1, 2 and so on; the counter is freed; one attempt is counted,
  -- and one success or one failure, under the reason of the result.
  pub dial_story :
      (f : Forwarder) (target : Text) (s : S)
      → All (λ c. (c == 180 || c == 183) ≡ false) w.late
      → counter w.dial_call_sid f ≡ 0
      → (check_dial w.now caller_sid target f.guardrails).1 ≡ none
      → Over leg opts caller_sid w
          (record f { guardrails = (check_dial w.now caller_sid target f.guardrails).0 })
          (dial leg opts caller_sid w target f s)
  unfolding dial screened counter
  dial_story f target s quiet fresh admit = rw admit (
      admitted-Over quiet
        (record f { guardrails = (check_dial w.now caller_sid target f.guardrails).0 }) target s
        fresh)

  -- A dial that the guardrails reject returns an error with the status "failed", sends nothing, tells
  -- nothing, and leaves the leg and the sequence counters alone: it counts no attempt and one failure,
  -- under the reason of the rejection.
  dial_rejected :
      (f : Forwarder) (target : Text) (s : S) (e : DialError)
      → (check_dial w.now caller_sid target f.guardrails).1 ≡ some e
      → let (r, failed) = dial leg opts caller_sid w target f s in
        (failed ≡ true)
        × (r.result.status ≡ "failed")
        × (r.leg ≡ s)
        × (r.forwarder.enqueued ≡ f.enqueued)
        × (r.forwarder.leg_seqs ≡ f.leg_seqs)
        × (r.forwarder.sip ≡ f.sip)
        × (r.forwarder.attempts ≡ f.attempts)
        × (r.forwarder.failed ≡ f.failed ++ guardrails_reason e ∷ [])
  unfolding dial screened
  dial_rejected f target s e reject = rw reject (refl, refl, refl, refl, refl, refl, refl, refl)
