-- ===== src/Sip/Handler.antt =====
-- go/internal/sip/handler.go: the events that an INVITE emits, with the lookup of main.go in
-- go/cmd/sipgate-sip-stream-bridge, and the routing of a BYE. The StatusClient is an interface: its
-- Enqueue on a state `K`, with whether it had no error.
pub mod Invite
pub mod Touched
pub mod Settled
pub mod Invited
pub mod Unwound
pub mod Examples
use sipgate_sip_stream_bridg.Prelude.{
  ℕ, suc, String, Bool, true, false, Option, none, some, List, [], ◌∷◌, str_eq, if◌then◌else◌,
}
use sipgate_sip_stream_bridg.Prelude.Text.{Text}
use sipgate_sip_stream_bridg.Prelude.Dict.{Dict, load}
use sipgate_sip_stream_bridg.Webhook.Event.{Value, text, number, stamp, CallbackEvent}
use sipgate_sip_stream_bridg.Webhook.Subscription.{subscription_matches}
use sipgate_sip_stream_bridg.Bridge.Call.{
  CallSession, StatusCallbackConfig, next_sequence_number, mark_emitted,
}
use sipgate_sip_stream_bridg.Bridge.Manager.{CallManager, update}

pub record StatusSink {ℓ} (K : Type ℓ) : Type ℓ where
  pub enqueue : String → CallbackEvent → K → K × Bool

pub record StatusSubscription : Type 0 where
  pub url : String
  pub method : String
  pub events : List String
  pub trusted : Bool

abbrev pub set_session : ℕ → CallSession → CallManager → CallManager
set_session r s m = record m { heap = update m.heap r s }

-- The subscription, the sequence number that it takes, and the session.
unfoldable pub subscribed :
    ℕ
    → CallManager
    → Option StatusCallbackConfig
    → Option (CallManager × StatusSubscription × ℕ × ℕ)
unfolding next_sequence_number
subscribed r m none = none
subscribed r m (some cfg) =
    let (s, seq) = next_sequence_number (m.heap r) in
    some (
      set_session r s m,
      record { url = cfg.url; method = cfg.method; events = cfg.events; trusted = cfg.trusted },
      seq,
      r,
    )

-- The StatusSubscriptionLookup of main.go; only a live session has a subscription.
unfoldable pub status_lookup :
    String → CallManager → Option (CallManager × StatusSubscription × ℕ × ℕ)
unfolding subscribed
status_lookup sid m = elim (load sid m.call_sid_idx) [
  | none ↦ none
  | some r ↦ subscribed r m (m.heap r).status_callback
]

-- Who calls whom in one INVITE.
pub record Parties : Type 0 where
  pub call_sid : String
  pub account_sid : String
  pub from : String
  pub to : String

unfoldable pub lifecycle_form : Parties → String → ℕ → ℕ → Dict Value
lifecycle_form p call_status seq now =
    ("CallSid", text p.call_sid)
    ∷ ("AccountSid", text p.account_sid)
    ∷ ("From", text p.from)
    ∷ ("To", text p.to)
    ∷ ("Caller", text p.from)
    ∷ ("Called", text p.to)
    ∷ ("Direction", text "inbound")
    ∷ ("ApiVersion", text "2010-04-01")
    ∷ ("CallStatus", text call_status)
    ∷ ("Timestamp", stamp now)
    ∷ ("SequenceNumber", number seq)
    ∷ ("CallbackSource", text "call-progress-events")
    ∷ []

unfoldable pub lifecycle_event :
    Parties → StatusSubscription → String → String → ℕ → ℕ → CallbackEvent
unfolding lifecycle_form
lifecycle_event p sub name call_status seq now = record {
  url = sub.url;
  method = if str_eq sub.method "" then "POST" else sub.method;
  form = lifecycle_form p call_status seq now;
  event = name;
  trusted = sub.trusted;
}

-- MarkEmitted follows an Enqueue without an error.
unfoldable pub after_enqueue {κ} : {K : Type κ} → ℕ → CallManager → K × Bool → CallManager × K
unfolding mark_emitted
after_enqueue r m (k, true) = (set_session r (mark_emitted (m.heap r)).0 m, k)
after_enqueue r m (k, false) = (m, k)

module _ {κ} {K : Type κ} (sink : StatusSink K) where
  unfoldable pub emit_found :
      Parties
      → String
      → String
      → ℕ
      → CallManager
      → K
      → Option (CallManager × StatusSubscription × ℕ × ℕ)
      → CallManager × K
  unfolding after_enqueue lifecycle_event
  emit_found p name call_status now m k none = (m, k)
  emit_found p name call_status now m k (some (m', sub, seq, r)) =
      if subscription_matches sub.events name
      then after_enqueue r m'
          (sink.enqueue p.call_sid (lifecycle_event p sub name call_status seq now) k)
      else (m', k)

  -- `wired` says that SetStatusEmission has set the client and the lookup.
  unfoldable pub emit_status_event :
      Bool → Parties → String → String → ℕ → CallManager → K → CallManager × K
  unfolding emit_found status_lookup
  emit_status_event wired p name call_status now m k =
      if wired then emit_found p name call_status now m k (status_lookup p.call_sid m) else (m, k)

-- What a ByeReader answers: nil, ErrDialogDoesNotExists or another error.
pub data ByeAnswer : Type 0 where
  consumed unknown_dialog read_failed : ByeAnswer

-- onBye over the server's cache and the extra readers, in their order: how it ends, and how many of
-- them are asked.
unfoldable pub on_bye : List ByeAnswer → ByeAnswer × ℕ
on_bye [] = (unknown_dialog, 0)
on_bye (consumed ∷ rs) = (consumed, 1)
on_bye (read_failed ∷ rs) = (read_failed, 1)
on_bye (unknown_dialog ∷ rs) = let (end, n) = on_bye rs in (end, suc n)
