-- ===== src/Sip/Forwarder/Examples.antt =====
-- Tests of go/internal/sip/forwarder.go.
use sipgate_sip_stream_bridg.Prelude.{◌≡◌, refl, true, false, none, [], ◌∷◌, inr}
use sipgate_sip_stream_bridg.Prelude.Text.{
  codes, starts_with, remove_if, trim_prefix, to_lower, trim_space, strip, trim_left, is_space,
}
use sipgate_sip_stream_bridg.Prelude.Dict.{load}
use sipgate_sip_stream_bridg.Sip.Guardrails.{
  new_guardrails, check_dial, normalize_target, session_count, match_allow_list, mask_target,
  global_or_rollback, check_and_increment_global, sum_slots, reset_slot, increment_slot,
  set_session_count,
}
use sipgate_sip_stream_bridg.Sip.Forwarder.CallerId.{normalise_trunk_caller_id}
use sipgate_sip_stream_bridg.Sip.Forwarder.Emit.{DialOpts, Forwarder, counter}
use sipgate_sip_stream_bridg.Sip.Forwarder.Invite.{LegConfigurer, answered, World, caller_gone}
use sipgate_sip_stream_bridg.Sip.Forwarder.Dial.{dial}
use sipgate_sip_stream_bridg.Sip.Forwarder.Dial.Ended.{Over}
use sipgate_sip_stream_bridg.Sip.Forwarder.Dial.Branches.{dial_story}

-- A leg that accepts everything.
abbrev willing : LegConfigurer (Unit {0})
willing = record {
  build_sdp_offer = λ s. (s, inr (118 ∷ 61 ∷ 48 ∷ []));
  accept_sdp_answer = λ answer s. (s, none);
  on_answered = λ s. (s, none);
}

abbrev subscribed : DialOpts
subscribed = record {
  caller_id = codes "+4930";
  timeout = 0;
  time_limit = 0;
  hangup_on_star = false;
  has_dtmf = false;
  caller_from = codes "sip:+4940@example.com";
  status_callback = codes "https://example.com/leg";
  status_callback_method = [];
  status_callback_events = [];
}

-- A 180 that is sent twice, a 200 OK, and the caller hangs up.
abbrev answered_world : World subscribed
answered_world = record {
  now = 100;
  initiated_at = 1;
  ringing_at = 2;
  answered_at = 3;
  ended_at = 4;
  dial_call_sid = "CA7";
  responses = 180 ∷ 180 ∷ [];
  late = [];
  invite_end = answered 200 [];
  ack_error = none;
  wake = caller_gone;
  talk_time = 60;
}

abbrev pub forwarder : Forwarder
forwarder = record {
  cfg = record {
    dial_default_caller_id = [];
    dial_caller_id_country_code = codes "49";
    dial_ring_timeout_s = 30;
    sip_user = codes "1234567t0";
    sip_domain = codes "sipgate.de";
    sip_outbound_target_port = 0;
    has_status_client = true;
    account_sid = "AC1";
  };
  guardrails = new_guardrails (codes "+49" ∷ []) 3 2;
  leg_seqs = [];
  enqueued = [];
  drained = [];
  attempts = 0;
  successes = 0;
  failed = [];
  outcomes = [];
  challenges = [];
  sip = [];
}

dial_story_example :
    Over willing subscribed "CA1" answered_world
      (record forwarder {
        guardrails = (check_dial 100 "CA1" (codes "+4915") forwarder.guardrails).0;
      })
      (dial willing subscribed "CA1" answered_world (codes "+4915") forwarder tt)
unfolding counter load check_dial new_guardrails normalize_target match_allow_list mask_target
    session_count global_or_rollback check_and_increment_global sum_slots reset_slot increment_slot
    set_session_count starts_with remove_if trim_prefix to_lower trim_space
dial_story_example =
    dial_story willing subscribed "CA1" answered_world forwarder (codes "+4915") tt tt refl refl

normalised : normalise_trunk_caller_id (codes " 021193674951") (codes "49") ≡ codes "4921193674951"
unfolding normalise_trunk_caller_id trim_space trim_left trim_prefix strip is_space
normalised = refl
