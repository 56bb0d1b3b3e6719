-- ===== src/Sip/Forwarder/CallerId.antt =====
-- go/internal/sip/forwarder.go: the caller's number, and the addresses of an INVITE.
use sipgate_sip_stream_bridg.Prelude.{
  ℕ, Bool, ◌||◌, Option, none, some, List, [], ◌∷◌, ◌++◌, ◌==◌, if◌then◌else◌,
}
use sipgate_sip_stream_bridg.Prelude.Text.{
  Text, codes, to_lower, trim_space, trim_prefix, is_empty, contains_text,
}

-- The first of the texts that is not blank, trimmed.
unfoldable pub first_trimmed : List Text → Option Text
unfolding trim_space is_empty
first_trimmed [] = none
first_trimmed (t ∷ ts) =
    let rest = first_trimmed ts in if is_empty (trim_space t) then rest else some (trim_space t)

-- `none` is ErrCallerIDRequired.
unfoldable pub resolve_caller_id : Text → Text → Text → Text → Option Text
unfolding first_trimmed
resolve_caller_id caller_id caller_from default_cid sip_user =
    first_trimmed (caller_id ∷ default_cid ∷ sip_user ∷ caller_from ∷ [])

abbrev or_blank : Option Text → Text
or_blank none = []
or_blank (some t) = t

unfoldable pub resolve_display_caller_id : Text → Text → Text → Text
unfolding first_trimmed
resolve_display_caller_id caller_id caller_from default_cid =
    or_blank (first_trimmed (caller_id ∷ default_cid ∷ caller_from ∷ []))

-- "0..." with something after it, under a country code.
abbrev national : Text → Text → Text
national cc [] = []
national cc (c ∷ s) =
    if is_empty cc
    then c ∷ s
    else if is_empty s
    then c ∷ s
    else if c == b'0'
    then cc ++ s
    else c ∷ s

unfoldable pub normalise_trunk_caller_id : Text → Text → Text
unfolding trim_space trim_prefix is_empty
normalise_trunk_caller_id s country_code =
    national (trim_space country_code)
      (trim_prefix (codes "00") (trim_prefix (codes "+") (trim_space s)))

unfoldable pub is_from_rejection_reason : Text → Bool
unfolding contains_text to_lower
is_from_rejection_reason reason =
    let r = to_lower reason in
    contains_text r (codes "from field")
    || contains_text r (codes "from header")
    || contains_text r (codes "from-username")
    || contains_text r (codes "p-asserted-identity")
    || contains_text r (codes "caller-id")
    || contains_text r (codes "callerid")

-- siplib.Uri, its scheme "sip"; the port is 0 where it is not set.
pub record SipUri : Type 0 where
  pub user : Text
  pub host : Text
  pub port : ℕ

unfoldable pub target_uri : Text → Text → ℕ → SipUri
unfolding trim_space trim_prefix
target_uri target domain port = record {
  user = trim_prefix (codes "tel:") (trim_prefix (codes "sip:") (trim_space target));
  host = domain;
  port = port;
}

-- The text before the first "@" and after it.
unfoldable pub split_at : Text → Option (Text × Text)
split_at [] = none
split_at (c ∷ s) =
    let rest = split_at s in
    if c == b'@'
    then some ([], s)
    else elim rest [ none ↦ none | some (user, host) ↦ some (c ∷ user, host) ]

unfoldable pub from_uri : Text → Text → SipUri
unfolding split_at trim_space trim_prefix
from_uri caller_id default_domain =
    let t = trim_prefix (codes "sip:") (trim_prefix (codes "tel:") (trim_space caller_id)) in
    elim (split_at t) [
      | some (user, host) ↦ record { user = user; host = host; port = 0 }
      | none ↦ record { user = t; host = default_domain; port = 0 }
    ]
