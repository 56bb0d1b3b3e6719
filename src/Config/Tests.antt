-- ===== src/Config/Tests.antt =====
-- go/internal/config/config.go: the exits of Load and the tests that lead to them.
pub mod Passed
use sipgate_sip_stream_bridg.Prelude.{
  ℕ, Bool, true, false, not, ◌&&◌, ◌||◌, Option, none, some, List, [], ◌∷◌, ◌++◌, ◌⊎◌, inl, inr,
  ltb, leb, ◌==◌, if◌then◌else◌,
}
use sipgate_sip_stream_bridg.Prelude.Text.{
  Text, codes, same, is_empty, to_lower, trim_space, starts_with, upper,
}
use sipgate_sip_stream_bridg.Prelude.Int.{ℤ, pos, negsuc, atoi}
use sipgate_sip_stream_bridg.Twiml.Events.{valid_status_callback_event}

-- The exits of Load, in its order.
pub data ConfigError : Type 0 where
  both_targets no_target : ConfigError
  voice_url_scheme voice_method_unknown fallback_url_scheme fallback_method_unknown voice_timeout :
      ConfigError
  rtp_ports audio_mode_unknown ring_timeout max_per_session max_per_minute listen_addr
        outbound_port :
      ConfigError
  callback_url_scheme callback_method_unknown event_unknown no_event prefix_malformed : ConfigError

abbrev pub Checked : Type 0 → Type 0
Checked A = ConfigError ⊎ A

unfoldable pub and_then : {A B : Type 0} → Checked A → (A → Checked B) → Checked B
and_then (inl e) f = inl e
and_then (inr a) f = f a

-- A test whose failure exits.
unfoldable pub require : {A : Type 0} → Bool → ConfigError → Checked A → Checked A
require true e rest = rest
require false e rest = inl e

-- Tests one after the other, each with its exit.
unfoldable pub require_all : {A : Type 0} → List (Bool × ConfigError) → A → Checked A
unfolding require
require_all [] a = inr a
require_all ((b, e) ∷ tests) a = require b e (require_all tests a)

-- Whether a number is at least `low`, or between both bounds.
unfoldable pub at_least : ℕ → ℤ → Bool
at_least low (pos n) = leb low n
at_least low (negsuc n) = false

unfoldable pub between : ℕ → ℕ → ℤ → Bool
between low high (pos n) = leb low n && leb n high
between low high (negsuc n) = false

unfoldable pub less : ℤ → ℤ → Bool
less (pos m) (pos n) = ltb m n
less (pos m) (negsuc n) = false
less (negsuc m) (pos n) = true
less (negsuc m) (negsuc n) = ltb n m

unfoldable pub is_http_url : Text → Bool
unfolding starts_with
is_http_url u = starts_with (codes "http://") u || starts_with (codes "https://") u

unfoldable pub is_post_or_get : Text → Bool
unfolding same
is_post_or_get m = same m (codes "POST") || same m (codes "GET")

-- A method in capitals, if it is one of the two.
unfoldable pub checked_method : ConfigError → Text → Checked Text
unfolding require is_post_or_get
checked_method e m = require (is_post_or_get (upper m)) e (inr (upper m))
