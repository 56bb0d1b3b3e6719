-- ===== src/Webhook/Ssrf.antt =====
-- go/internal/webhook/ssrf.go: the addresses that a callback may not reach. net.IP is the 4 octets of
-- an IPv4 address or the 8 groups of an IPv6 one, and url.Parse, the resolver and the dialer are
-- parameters.
pub mod Blocked
pub mod Dialled
use sipgate_sip_stream_bridg.Prelude.{
  ℕ, suc, ◌/◌, ◌%◌, String, Bool, true, false, Option, none, some, List, [], ◌∷◌, ltb, leb, ◌==◌,
  ◌&&◌, ◌||◌, not, str_eq, if◌then◌else◌,
}
use sipgate_sip_stream_bridg.Prelude.Text.{Text, lower, codes}

pub data Ip : Type 0 where
  v4 : ℕ → ℕ → ℕ → ℕ → Ip
  v6 : ℕ → ℕ → ℕ → ℕ → ℕ → ℕ → ℕ → ℕ → Ip

-- net.IP.To4 with its fallback: an IPv4-mapped IPv6 address becomes the IPv4 address.
unfoldable pub to_4 : Ip → Ip
to_4 (v4 a b c d) = v4 a b c d
to_4 (v6 a b c d e f g h) =
    if a == 0 && b == 0 && c == 0 && d == 0 && e == 0 && f == 65535
    then v4 (g / 256) (g % 256) (h / 256) (h % 256)
    else v6 a b c d e f g h

unfoldable pub is_loopback : Ip → Bool
is_loopback (v4 a b c d) = a == 127
is_loopback (v6 a b c d e f g h) =
    a == 0 && b == 0 && c == 0 && d == 0 && e == 0 && f == 0 && g == 0 && h == 1

unfoldable pub is_private : Ip → Bool
is_private (v4 a b c d) = a == 10 || a == 172 && b / 16 == 1 || a == 192 && b == 168
is_private (v6 a b c d e f g h) = a / 512 == 126

unfoldable pub is_link_local_unicast : Ip → Bool
is_link_local_unicast (v4 a b c d) = a == 169 && b == 254
is_link_local_unicast (v6 a b c d e f g h) = a / 64 == 1018

unfoldable pub is_link_local_multicast : Ip → Bool
is_link_local_multicast (v4 a b c d) = a == 224 && b == 0 && c == 0
is_link_local_multicast (v6 a b c d e f g h) = a / 256 == 255 && a % 16 == 2

unfoldable pub is_unspecified : Ip → Bool
is_unspecified (v4 a b c d) = a == 0 && b == 0 && c == 0 && d == 0
is_unspecified (v6 a b c d e f g h) =
    a == 0 && b == 0 && c == 0 && d == 0 && e == 0 && f == 0 && g == 0 && h == 0

unfoldable pub is_multicast : Ip → Bool
is_multicast (v4 a b c d) = a / 16 == 14
is_multicast (v6 a b c d e f g h) = a / 256 == 255

-- 100.64.0.0/10, 0.0.0.0/8 and 255.255.255.255/32.
unfoldable pub in_blocked_extra_cidrs : Ip → Bool
in_blocked_extra_cidrs (v4 a b c d) =
    a == 100 && b / 64 == 1 || a == 0 || a == 255 && b == 255 && c == 255 && d == 255
in_blocked_extra_cidrs (v6 a b c d e f g h) = false

unfoldable pub is_blocked_4 : Ip → Bool
is_blocked_4 ip =
    is_loopback ip
    || is_private ip
    || is_link_local_unicast ip
    || is_link_local_multicast ip
    || is_unspecified ip
    || is_multicast ip
    || in_blocked_extra_cidrs ip

-- isBlockedIP of an address that is not nil.
unfoldable pub is_blocked_ip : Ip → Bool
is_blocked_ip ip = is_blocked_4 (to_4 ip)

pub data UrlError : Type 0 where
  empty_url non_https ssrf_rejected bad_url : UrlError

-- What url.Parse and net.ParseIP tell of a URL.
pub record Url : Type 0 where
  pub scheme : Text
  pub hostname : Text
  pub ip : Option Ip

-- Simple folding, where the long s and the Kelvin sign fold to ASCII letters.
unfoldable pub fold : ℕ → ℕ
fold c = if c == 383 then b's' else if c == 8490 then b'k' else lower c

-- strings.EqualFold with an ASCII text.
unfoldable pub equal_fold : Text → Text → Bool
equal_fold [] [] = true
equal_fold [] (d ∷ t) = false
equal_fold (c ∷ s) [] = false
equal_fold (c ∷ s) (d ∷ t) = fold c == fold d && equal_fold s t

abbrev pub is_empty : Text → Bool
is_empty [] = true
is_empty (c ∷ s) = false

abbrev pub check_ip : Option Ip → Option UrlError
check_ip none = none
check_ip (some ip) = if is_blocked_ip ip then some ssrf_rejected else none

abbrev pub check_url : Option Url → Option UrlError
check_url none = some bad_url
check_url (some u) =
    if not (equal_fold u.scheme (codes "https"))
    then some non_https
    else if is_empty u.hostname
    then some ssrf_rejected
    else if equal_fold u.hostname (codes "localhost")
    then some ssrf_rejected
    else check_ip u.ip

-- ValidateCallbackURL: none is nil.
unfoldable pub validate_callback_url : (String → Option Url) → String → Option UrlError
validate_callback_url parse u = if str_eq u "" then some empty_url else check_url (parse u)

-- ssrfGuard.DialContext: the address it dials, or its error. The resolver answers with addresses, or
-- fails.
pub data DialResult : Type 0 where
  dials : Ip → String → DialResult
  split_failed lookup_failed rejected : DialResult

unfoldable pub any_blocked : List Ip → Bool
any_blocked [] = false
any_blocked (ip ∷ ips) = is_blocked_ip ip || any_blocked ips

abbrev pub dial_resolved : Option (List Ip) → String → DialResult
dial_resolved none port = lookup_failed
dial_resolved (some []) port = rejected
dial_resolved (some (ip ∷ ips)) port = if any_blocked (ip ∷ ips) then rejected else dials ip port

-- The n-th lookup may answer otherwise than the one before it: `n` counts the lookups made so far.
unfoldable pub dial_context :
    (String → Option (String × String))
    → (ℕ → String → Option (List Ip))
    → String
    → ℕ
    → DialResult × ℕ
dial_context split lookup addr n = elim (split addr) [
  | none ↦ (split_failed, n)
  | some hp ↦ (dial_resolved (lookup n hp.0) hp.1, suc n)
]
