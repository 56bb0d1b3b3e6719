-- ===== src/Config.antt =====
-- go/internal/config/config.go: what Load makes of the environment. The env library reads it into a
-- Config, which is an argument; the fields that Load neither tests nor changes are left out. An exit of
-- the process is an error, without the value that its message shows. `local_ip` is what net.Dial finds,
-- if it does, and `split_host_port` stands for net.SplitHostPort.
pub mod Tests
pub mod Lists
pub mod Checks
pub mod Loaded
pub mod Examples
use sipgate_sip_stream_bridg.Prelude.{
  ℕ, Bool, true, false, not, ◌&&◌, ◌||◌, Option, none, some, List, [], ◌∷◌, ◌++◌, ◌⊎◌, inl, inr,
  ltb, leb, ◌==◌, if◌then◌else◌,
}
use sipgate_sip_stream_bridg.Prelude.Text.{
  Text, codes, same, is_empty, to_lower, trim_space, starts_with, upper,
}
use sipgate_sip_stream_bridg.Prelude.Int.{ℤ, pos, negsuc, atoi}
use sipgate_sip_stream_bridg.Twiml.Events.{valid_status_callback_event}
use sipgate_sip_stream_bridg.Config.Tests.{
  Checked, ConfigError, and_then, at_least, audio_mode_unknown, between, both_targets,
  callback_method_unknown, callback_url_scheme, checked_method, event_unknown,
  fallback_method_unknown, fallback_url_scheme, is_http_url, is_post_or_get, less, listen_addr,
  max_per_minute, max_per_session, no_event, no_target, outbound_port, prefix_malformed, require,
  require_all, ring_timeout, rtp_ports, voice_method_unknown, voice_timeout, voice_url_scheme,
}
use sipgate_sip_stream_bridg.Config.Lists.{
  all_digits, check_events, check_prefixes, clean, is_prefix, split_from,
}

pub record Config : Type 0 where
  pub sip_listen_addr : Text
  pub sip_outbound_target_port : ℤ
  pub status_callback_default_url : Text
  pub status_callback_default_method : Text
  pub status_callback_default_events : Text
  pub ws_target_url : Text
  pub voice_url : Text
  pub voice_method : Text
  pub voice_fallback_url : Text
  pub voice_fallback_method : Text
  pub voice_timeout_s : ℤ
  pub sdp_contact_ip : Text
  pub rtp_port_min : ℤ
  pub rtp_port_max : ℤ
  pub audio_mode : Text
  pub dial_allowed_prefixes : List Text
  pub dial_ring_timeout_s : ℤ
  pub dial_max_per_session : ℤ
  pub dial_max_per_minute : ℤ

unfoldable pub set_contact_ip : Option Text → Config → Config
unfolding is_empty
set_contact_ip none c = c
set_contact_ip (some ip) c =
    if is_empty c.sdp_contact_ip then record c { sdp_contact_ip = ip } else c

unfoldable pub check_targets : Config → Checked Config
unfolding is_empty
check_targets c =
    if not (is_empty c.ws_target_url) && not (is_empty c.voice_url)
    then inl both_targets
    else if is_empty c.ws_target_url && is_empty c.voice_url
    then inl no_target
    else inr c

unfoldable pub with_fallback_method : Config → Text → Checked Config
with_fallback_method c m = inr (record c { voice_fallback_method = m })

unfoldable pub checked_fallback : Config → Checked Config
unfolding and_then require is_http_url checked_method with_fallback_method
checked_fallback c = require (is_http_url c.voice_fallback_url) fallback_url_scheme (
    and_then (checked_method fallback_method_unknown c.voice_fallback_method)
      (with_fallback_method c))

unfoldable pub check_fallback : Config → Checked Config
unfolding is_empty checked_fallback
check_fallback c =
    let checked = checked_fallback c in if is_empty c.voice_fallback_url then inr c else checked

unfoldable pub check_timeout : Config → Checked Config
unfolding require between
check_timeout c = require (between 1 15 c.voice_timeout_s) voice_timeout (inr c)

unfoldable pub with_voice_method : Config → Text → Checked Config
unfolding and_then check_fallback check_timeout
with_voice_method c m = and_then (check_fallback (record c { voice_method = m })) check_timeout

unfoldable pub checked_voice : Config → Checked Config
unfolding and_then require is_http_url checked_method with_voice_method
checked_voice c =
    require (is_http_url c.voice_url) voice_url_scheme
      (and_then (checked_method voice_method_unknown c.voice_method) (with_voice_method c))

unfoldable pub check_voice : Config → Checked Config
unfolding is_empty checked_voice
check_voice c = let checked = checked_voice c in if is_empty c.voice_url then inr c else checked

unfoldable pub numbered : Text → Option ℤ → Option (Text × ℤ)
unfolding between
numbered host none = none
numbered host (some n) = if between 1 65_535 n then some (host, n) else none

unfoldable pub with_port : Option (Text × Text) → Option (Text × ℤ)
unfolding numbered atoi
with_port none = none
with_port (some (host, port)) = numbered host (atoi port)

module _ (split_host_port : Text → Option (Text × Text)) where
  unfoldable pub split_listen_addr : Text → Option (Text × ℤ)
  unfolding is_empty with_port
  split_listen_addr addr = if is_empty addr then none else with_port (split_host_port addr)

  unfoldable pub listen_port : Config → ℤ
  unfolding split_listen_addr
  listen_port c = elim (split_listen_addr c.sip_listen_addr) [
    | none ↦ pos 5_060
    | some (host, port) ↦ port
  ]

  abbrev pub has_listen_addr : Config → Bool
  has_listen_addr c = elim (split_listen_addr c.sip_listen_addr) [
    | none ↦ false
    | some (host, port) ↦ true
  ]

  abbrev pub bounds : Config → List (Bool × ConfigError)
  bounds c =
      (less c.rtp_port_min c.rtp_port_max, rtp_ports)
      ∷ (same c.audio_mode (codes "twilio") || same c.audio_mode (codes "best"), audio_mode_unknown)
      ∷ (between 5 600 c.dial_ring_timeout_s, ring_timeout)
      ∷ (at_least 1 c.dial_max_per_session, max_per_session)
      ∷ (at_least 1 c.dial_max_per_minute, max_per_minute)
      ∷ (has_listen_addr c, listen_addr)
      ∷ (between 0 65_535 c.sip_outbound_target_port, outbound_port)
      ∷ []

  unfoldable pub check_bounds : Config → Checked Config
  unfolding require_all less same between at_least split_listen_addr
  check_bounds c = require_all (bounds c) c

unfoldable pub with_events : Config → Text → Bool → Checked Config
unfolding require
with_events c m any = require any no_event (inr (record c { status_callback_default_method = m }))

unfoldable pub with_callback_method : Config → Text → Checked Config
unfolding and_then split_from check_events with_events
with_callback_method c m =
    and_then (check_events false (split_from [] c.status_callback_default_events)) (with_events c m)

unfoldable pub checked_callback : Config → Checked Config
unfolding and_then require is_http_url checked_method with_callback_method
checked_callback c = require (is_http_url c.status_callback_default_url) callback_url_scheme (
    and_then (checked_method callback_method_unknown c.status_callback_default_method)
      (with_callback_method c))

unfoldable pub check_callback : Config → Checked Config
unfolding is_empty checked_callback
check_callback c =
    let checked = checked_callback c in
    if is_empty c.status_callback_default_url then inr c else checked

unfoldable pub with_prefixes : Config → List Text → Checked Config
with_prefixes c norm = inr (record c { dial_allowed_prefixes = norm })

unfoldable pub set_prefixes : Config → Checked Config
unfolding and_then check_prefixes with_prefixes
set_prefixes c = and_then (check_prefixes [] c.dial_allowed_prefixes) (with_prefixes c)

unfoldable pub after_bounds : Config → Checked Config
unfolding and_then check_callback set_prefixes
after_bounds c = and_then (check_callback c) set_prefixes

module _ (split_host_port : Text → Option (Text × Text)) where
  unfoldable pub after_voice : Config → Checked Config
  unfolding and_then check_bounds after_bounds
  after_voice c = and_then (check_bounds split_host_port c) after_bounds

  unfoldable pub after_targets : Config → Checked Config
  unfolding and_then check_voice after_voice
  after_targets c = and_then (check_voice c) after_voice

  -- Load, with the address that net.Dial finds.
  unfoldable pub load_config : Option Text → Config → Checked Config
  unfolding and_then set_contact_ip check_targets after_targets
  load_config local_ip c = and_then (check_targets (set_contact_ip local_ip c)) after_targets
