-- ===== src/Sip/Forwarder/Invite.antt =====
-- go/internal/sip/forwarder.go, what Dial sends and what it waits for: the INVITE with its identities,
-- its answers, and awaitDialogEnd. The callee's leg is an interface: its operations on a state `S`. What
-- the network answers is an argument.
use sipgate_sip_stream_bridg.Prelude.{
  ℕ, ◌*◌, ◌≡◌, String, Bool, true, false, ◌&&◌, Option, none, some, List, [], ◌∷◌, ◌++◌, ◌⊎◌, ltb,
  if◌then◌else◌,
}
use sipgate_sip_stream_bridg.Prelude.Text.{Text, trim_space, is_empty, same}
use sipgate_sip_stream_bridg.Sip.Forwarder.CallerId.{
  SipUri, resolve_display_caller_id, normalise_trunk_caller_id, target_uri, from_uri,
}
use sipgate_sip_stream_bridg.Sip.Forwarder.Emit.{DialOpts, SipAction, invite, bye, ForwarderConfig}

-- RTPLocalPort is not used here.
pub record LegConfigurer {ℓ} (S : Type ℓ) : Type ℓ where
  pub build_sdp_offer : S → S × (Text ⊎ List ℕ)
  pub accept_sdp_answer : List ℕ → S → S × Option Text
  pub on_answered : S → S × Option Text

-- How the INVITE ends, with the message of the error where it is one. `rejected` has the response of
-- sipgo's ErrDialogResponse; `client` says whether a DialClient came with the error. `ring_timeout` is
-- the watchdog's case of the select.
pub data InviteEnd : Type 0 where
  answered : ℕ → List ℕ → InviteEnd
  no_response : InviteEnd
  rejected : Option (ℕ × Text) → Text → Bool → InviteEnd
  deadline cancelled other_error : Text → Bool → InviteEnd
  ring_timeout : InviteEnd

abbrev pub can_star : DialOpts → Bool
can_star opts = opts.hangup_on_star && opts.has_dtmf

abbrev pub has_limit : DialOpts → Bool
has_limit opts = ltb 0 opts.time_limit

-- The case that the select of awaitDialogEnd takes: the end of the dialog, with whether "*" and the
-- time limit had fired before, the end of the caller's leg, or one of the two that fired.
pub data Wake (opts : DialOpts) : Type 0 where
  dialog_done : Bool → Bool → Wake opts
  caller_gone : Wake opts
  star_pressed : can_star opts ≡ true → Wake opts
  limit_reached : has_limit opts ≡ true → Wake opts

abbrev bye_if : Bool → List SipAction
bye_if true = bye ∷ []
bye_if false = []

-- The status, and the BYEs of the goroutines that fired and of the select's own case.
unfoldable pub await_dialog_end : (opts : DialOpts) → Wake opts → String × List SipAction
await_dialog_end opts (dialog_done star limit) = (
  if can_star opts && star then "hangup-star" else "answered",
  bye_if (can_star opts && star) ++ bye_if (has_limit opts && limit),
)
await_dialog_end opts caller_gone = ("answered", bye ∷ [])
await_dialog_end opts (star_pressed h) = ("hangup-star", bye ∷ [])
await_dialog_end opts (limit_reached h) = ("answered", bye ∷ [])

-- What the world does in one dial; times are nanoseconds, `now` Unix seconds.
pub record World (opts : DialOpts) : Type 0 where
  pub now : ℕ
  pub initiated_at : ℕ
  pub ringing_at : ℕ
  pub answered_at : ℕ
  pub ended_at : ℕ
  pub dial_call_sid : String
  pub responses : List ℕ
  -- What still reaches the onResponse hook after the watchdog has given up and before Dial returns.
  pub late : List ℕ
  pub invite_end : InviteEnd
  pub ack_error : Option Text
  pub wake : Wake opts
  pub talk_time : ℕ

-- ringTimeout
unfoldable pub ring_timeout_of : ForwarderConfig → DialOpts → ℕ
ring_timeout_of cfg opts =
    if ltb 0 opts.timeout then opts.timeout else cfg.dial_ring_timeout_s * 1_000_000_000

-- The display name and the P-Preferred-Identity of the INVITE.
unfoldable pub identity_headers : ForwarderConfig → DialOpts → SipUri → Text × Option SipUri
unfolding resolve_display_caller_id normalise_trunk_caller_id from_uri is_empty trim_space same
identity_headers cfg opts from =
    let display =
      trim_space
        (resolve_display_caller_id opts.caller_id opts.caller_from cfg.dial_default_caller_id) in
    let uri = from_uri display cfg.sip_domain in
    let user = normalise_trunk_caller_id uri.user cfg.dial_caller_id_country_code in
    if is_empty display
    then ([], none)
    else if same user (normalise_trunk_caller_id from.user cfg.dial_caller_id_country_code)
    then ([], none)
    else (user, some (record uri { user = user }))

unfoldable pub invite_of : ForwarderConfig → DialOpts → Text → Text → List ℕ → SipAction
unfolding identity_headers target_uri from_uri
invite_of cfg opts target caller_id offer =
    let from = from_uri caller_id cfg.sip_domain in
    let (display, ppi) = identity_headers cfg opts from in
    invite (target_uri target cfg.sip_domain cfg.sip_outbound_target_port) from display ppi offer
