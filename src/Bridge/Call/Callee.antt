-- ===== src/Bridge/Call/Callee.antt =====
-- go/internal/bridge/leg.go, the *Leg that PrepareDial installs as LegConfigurer: the second leg of a
-- session and the session that it points back to are one state. What is outside the program (the SDP
-- library, the clock, the UDP socket) and the texts of the errors are the fields of `Outside`.
use sipgate_sip_stream_bridg.Prelude.{ℕ, Bool, true, false, Option, none, some, List, ◌⊎◌, inl, inr}
use sipgate_sip_stream_bridg.Prelude.Text.{Text}
use sipgate_sip_stream_bridg.Bridge.Leg.{Leg}
use sipgate_sip_stream_bridg.Bridge.Leg.Sdp.{
  SdpError, Offer, Description, build_sdp_offer, accept_sdp_answer,
}
use sipgate_sip_stream_bridg.Bridge.Call.{CallSession}
use sipgate_sip_stream_bridg.Bridge.Call.Lifecycle.{set_at, leg_at, on_answered}
use sipgate_sip_stream_bridg.Sip.Forwarder.Invite.{LegConfigurer}

pub record Outside : Type 0 where
  pub marshal : Offer → Option (List ℕ)
  pub unmarshal : List ℕ → Option Description
  pub offered_at : ℕ
  pub socket : Bool
  pub message : SdpError → Text
  pub answer_error : Text

abbrev put_leg : Leg → CallSession → CallSession
put_leg l s = record s { legs = set_at 1 (some l) s.legs }

abbrev message_of : (SdpError → Text) → Option SdpError → Option Text
message_of message none = none
message_of message (some e) = some (message e)

unfoldable pub offered :
    Outside → CallSession → Leg × (SdpError ⊎ (List ℕ × ℕ)) → CallSession × (Text ⊎ List ℕ)
offered o s (l, inl e) = (put_leg l s, inl (o.message e))
offered o s (l, inr (sdp, port)) = (put_leg l s, inr sdp)

unfoldable pub accepted : Outside → CallSession → Leg × Option SdpError → CallSession × Option Text
accepted o s (l, e) = (put_leg l s, message_of o.message e)

unfoldable pub answered_leg : Outside → CallSession × Bool → CallSession × Option Text
answered_leg o (s, true) = (s, none)
answered_leg o (s, false) = (s, some o.answer_error)

-- PrepareDial leaves no session without its second leg, where these operations fail.
unfoldable pub offer_of : Outside → CallSession → Option Leg → CallSession × (Text ⊎ List ℕ)
unfolding offered build_sdp_offer
offer_of o s none = (s, inl (o.answer_error))
offer_of o s (some l) = offered o s (build_sdp_offer o.marshal o.offered_at l)

-- The outcome nil_address of accept_sdp_answer ends the process; what the dial does with it here is that
-- of an error and stands for nothing in the code.
unfoldable pub accept_of : Outside → List ℕ → CallSession → Option Leg → CallSession × Option Text
unfolding accepted accept_sdp_answer
accept_of o answer s none = (s, some o.answer_error)
accept_of o answer s (some l) = accepted o s (accept_sdp_answer o.unmarshal answer l)

unfoldable pub answer_of : Outside → CallSession → Option Leg → CallSession × Option Text
unfolding answered_leg on_answered
answer_of o s none = (s, some o.answer_error)
answer_of o s (some l) = answered_leg o (on_answered l o.socket s)

unfoldable pub callee_leg : Outside → LegConfigurer CallSession
unfolding offer_of accept_of answer_of
callee_leg o = record {
  build_sdp_offer = λ s. offer_of o s (leg_at 1 s.legs);
  accept_sdp_answer = λ answer s. accept_of o answer s (leg_at 1 s.legs);
  on_answered = λ s. answer_of o s (leg_at 1 s.legs);
}
