-- ===== src/Sip/Forwarder/Dial/Ended.antt =====
-- go/internal/sip/forwarder.go, Dial: what is told and counted when a dial that the guardrails admit
-- is over.
use sipgate_sip_stream_bridg.Prelude.{
  ℕ, suc, ◌<◌, ◌^◌, ◌≡◌, refl, ap, ◌∙◌, String, Bool, true, false, none, List, [], ◌∷◌, ◌++◌, inl,
  inr, arith, if◌then◌else◌, Bool-cases, length,
}
use sipgate_sip_stream_bridg.Prelude.Text.{Text}
use sipgate_sip_stream_bridg.Prelude.Dict.{load, load-delete_self}
use sipgate_sip_stream_bridg.Sip.Forwarder.Emit.{
  DialOpts, Forwarder, LegId, leg_of, is_subscribed, emit_dial_event, send_event, next_leg_sequence,
  finish_leg, release_leg_sequence, count_failure, settle_result, record_failure,
  dial_terminal_event_name,
}
use sipgate_sip_stream_bridg.Sip.Forwarder.Invite.{LegConfigurer, await_dialog_end, World}
use sipgate_sip_stream_bridg.Sip.Forwarder.Dial.{Run, fail, bridged}
use sipgate_sip_stream_bridg.Observability.{bucket_outcome}
use sipgate_sip_stream_bridg.Sip.Forwarder.Dial.Story.{Told, numbered, Tells, emit_dial_event-Tells}

-- The other fields of a forwarder are left alone by emitDialEvent.
pub emit_dial_event-counts :
    (opts : DialOpts) (name call_status : String) (leg : LegId) (now : ℕ) (f : Forwarder)
    → let g = emit_dial_event opts name call_status leg now f in
      (g.attempts ≡ f.attempts) × (g.successes ≡ f.successes) × (g.failed ≡ f.failed)
unfolding emit_dial_event send_event next_leg_sequence
emit_dial_event-counts opts name call_status leg now f =
    elim (Bool-cases (is_subscribed f.cfg opts name)) [
      | inl e ↦ rw e (refl, refl, refl)
      | inr e ↦ rw e (refl, refl, refl)
    ]

module _ {ℓ} {S : Type ℓ} (leg : LegConfigurer S) (opts : DialOpts) (caller_sid : String)
    (w : World opts) where
  -- The events up to the answer.
  abbrev pub opening : Bool → List Told
  opening rang =
      record { name = "initiated"; call_status = "queued"; time = w.initiated_at }
      ∷ (if rang
          then record { name = "ringing"; call_status = "ringing"; time = w.ringing_at } ∷ []
          else [])

  abbrev the_answer : Told
  the_answer = record { name = "answered"; call_status = "in-progress"; time = w.answered_at }

  abbrev the_end : Told
  the_end = record { name = "completed"; call_status = "completed"; time = w.ended_at }

  abbrev the_failure : String → Told
  the_failure status =
      let name = dial_terminal_event_name status in
      record { name = name; call_status = name; time = w.ended_at }

  -- All events of a dial: whether it rang, whether Dial returns an error, and its status.
  abbrev pub story : Bool → Bool → String → List Told
  story rang true status = opening rang ++ the_failure status ∷ []
  story rang false status = (opening rang ++ the_answer ∷ []) ++ the_end ∷ []

  abbrev pub Going : Forwarder → Run S → Type 0
  Going f0 r =
      (r.result.dial_call_sid ≡ w.dial_call_sid)
      × Tells opts (leg_of caller_sid r.result) f0 r.forwarder (opening r.rang)
      × (r.forwarder.attempts ≡ suc f0.attempts)
      × (r.forwarder.successes ≡ f0.successes)
      × (r.forwarder.failed ≡ f0.failed)

  pub record Over (f0 : Forwarder) (p : Run S × Bool) : Type 0 where
    pub told :
        p.0.forwarder.enqueued
        ≡ f0.enqueued
          ++ numbered f0.cfg opts
              (leg_of caller_sid p.0.result)
              0
              (story p.0.rang p.1 p.0.result.status)
    pub freed : load w.dial_call_sid p.0.forwarder.leg_seqs ≡ none
    pub attempts : p.0.forwarder.attempts ≡ suc f0.attempts
    pub successes : p.0.forwarder.successes ≡ (if p.1 then f0.successes else suc f0.successes)
    pub failures :
        p.0.forwarder.failed ≡ (if p.1 then f0.failed ++ p.0.result.reason ∷ [] else f0.failed)

  pub short : (rang : Bool) → length (opening rang) < 2 ^ 63
  short rang = ground arith

  pub fail-Over :
      (f0 : Forwarder) (message : Text) (r : Run S)
      → Going f0 r
      → Over f0 (fail leg opts caller_sid w message r)
  unfolding fail record_failure finish_leg release_leg_sequence count_failure settle_result
  fail-Over f0 message r (same, told, attempts, successes, failed) =
      let result = settle_result message r.result in
      let status = result.status in
      let counted = count_failure result r.forwarder in
      let (_, queue, _) =
        emit_dial_event-Tells opts (leg_of caller_sid r.result) f0 counted (opening r.rang)
          (the_failure status) (short r.rang) told in
      let (a, b, c) =
        emit_dial_event-counts opts (the_failure status).name (the_failure status).name
          (leg_of caller_sid r.result) w.ended_at counted in
      record {
        told = queue;
        freed = rw same (load-delete_self w.dial_call_sid _);
        attempts = a ∙ attempts;
        successes = b ∙ successes;
        failures = c ∙ ap (λ l. l ++ result.reason ∷ []) failed;
      }

  abbrev over : Forwarder → Forwarder
  over up = record up {
    sip = up.sip ++ (await_dialog_end opts w.wake).1;
    outcomes = up.outcomes ++ bucket_outcome "answered" ∷ [];
  }

  pub bridged-Over :
      (f0 : Forwarder) (r : Run S) → Going f0 r → Over f0 (bridged leg opts caller_sid w r)
  unfolding bridged finish_leg release_leg_sequence
  bridged-Over f0 r (same, told, attempts, successes, failed) =
      let id = leg_of caller_sid r.result in
      let won = record r.forwarder { successes = suc r.forwarder.successes } in
      let up = emit_dial_event opts "answered" "in-progress" id w.answered_at won in
      let told_up =
        emit_dial_event-Tells opts id f0 won (opening r.rang) the_answer (short r.rang) told in
      let (_, queue, _) =
        emit_dial_event-Tells opts id f0 (over up) (opening r.rang ++ the_answer ∷ []) the_end
          (ground arith) told_up in
      let (a, b, c) = emit_dial_event-counts opts "answered" "in-progress" id w.answered_at won in
      let (a', b', c') =
        emit_dial_event-counts opts "completed" "completed" id w.ended_at (over up) in
      record {
        told = queue;
        freed = rw same (load-delete_self w.dial_call_sid _);
        attempts = a' ∙ (a ∙ attempts);
        successes = b' ∙ (b ∙ ap suc successes);
        failures = c' ∙ (c ∙ failed);
      }
