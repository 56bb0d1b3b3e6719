-- ===== src/Webhook/Ssrf/Blocked.antt =====
-- Which addresses isBlockedIP of ssrf.go blocks.
use sipgate_sip_stream_bridg.Prelude.{
  ℕ, ◌+◌, ◌*◌, ◌/◌, ◌%◌, ◌<◌, ◌≡◌, refl, Bool, true, false, List, [], ◌∷◌, arith, leb, ◌==◌, ◌&&◌,
  ◌||◌, sym, ◌∙◌,
}
use sipgate_sip_stream_bridg.Webhook.Ssrf.{
  v4, v6, to_4, is_loopback, is_private, is_link_local_unicast, is_link_local_multicast,
  is_unspecified, is_multicast, in_blocked_extra_cidrs, is_blocked_4, is_blocked_ip,
}

-- Four octets.
abbrev pub IsOctets : ℕ → ℕ → ℕ → ℕ → Type 0
IsOctets a b c d = (a < 256) × (b < 256) × (c < 256) × (d < 256)

mapped_group : (g h : ℕ) → h < 256 → ((g * 256 + h) / 256 ≡ g) × ((g * 256 + h) % 256 ≡ h)
mapped_group g h k = (omega arith, omega arith)

-- An IPv4 address in its IPv4-mapped IPv6 form is blocked exactly when it is blocked itself.
pub is_blocked_ip-mapped :
    (a b c d : ℕ)
    → IsOctets a b c d
    → is_blocked_ip (v6 0 0 0 0 0 65535 (a * 256 + b) (c * 256 + d)) ≡ is_blocked_ip (v4 a b c d)
unfolding is_blocked_ip to_4
is_blocked_ip-mapped a b c d (ha, hb, hc, hd) =
    let (p, q) = mapped_group a b hb in let (r, s) = mapped_group c d hd in rw (p, q, r, s) refl

-- An IPv4 address as a number.
abbrev pub number_of : ℕ → ℕ → ℕ → ℕ → ℕ
number_of a b c d = a * 16777216 + b * 65536 + c * 256 + d

-- The blocked ranges, from the first to the last address: this network, private, shared, loopback,
-- link-local, private, private, multicast, broadcast.
abbrev pub blocked_ranges : List (ℕ × ℕ)
blocked_ranges =
    (0, 16777215)
    ∷ (167772160, 184549375)
    ∷ (1681915904, 1686110207)
    ∷ (2130706432, 2147483647)
    ∷ (2851995648, 2852061183)
    ∷ (2886729728, 2887778303)
    ∷ (3232235520, 3232301055)
    ∷ (3758096384, 4026531839)
    ∷ (4294967295, 4294967295)
    ∷ []

abbrev pub inside : ℕ → ℕ → ℕ → Bool
inside n lo hi = leb lo n && leb n hi

abbrev pub within : ℕ → List (ℕ × ℕ) → Bool
within n [] = false
within n ((lo, hi) ∷ rs) = inside n lo hi || within n rs

module _ (a b c d : ℕ) (h : IsOctets a b c d) where
  loopback_range : is_loopback (v4 a b c d) ≡ inside (number_of a b c d) 2130706432 2147483647
  unfolding is_loopback
  loopback_range = ground arith

  private_10 : (a == 10) ≡ inside (number_of a b c d) 167772160 184549375
  private_10 = ground arith

  private_172 : (a == 172 && b / 16 == 1) ≡ inside (number_of a b c d) 2886729728 2887778303
  private_172 = ground arith

  private_192 : (a == 192 && b == 168) ≡ inside (number_of a b c d) 3232235520 3232301055
  private_192 = ground arith

  private_range : is_private (v4 a b c d) ≡ (
      inside (number_of a b c d) 167772160 184549375
      || inside (number_of a b c d) 2886729728 2887778303
      || inside (number_of a b c d) 3232235520 3232301055)
  unfolding is_private
  private_range = rw (private_10, private_172, private_192) refl

  link_local_range :
      is_link_local_unicast (v4 a b c d) ≡ inside (number_of a b c d) 2851995648 2852061183
  unfolding is_link_local_unicast
  link_local_range = ground arith

  multicast_range : is_multicast (v4 a b c d) ≡ inside (number_of a b c d) 3758096384 4026531839
  unfolding is_multicast
  multicast_range = ground arith

  link_local_multicast_range :
      is_link_local_multicast (v4 a b c d) ≡ true → is_multicast (v4 a b c d) ≡ true
  unfolding is_multicast is_link_local_multicast
  link_local_multicast_range k = ground arith

  unspecified_range :
      is_unspecified (v4 a b c d) ≡ true → inside (number_of a b c d) 0 16777215 ≡ true
  unfolding is_unspecified
  unspecified_range k = ground arith

  shared_range : (a == 100 && b / 64 == 1) ≡ inside (number_of a b c d) 1681915904 1686110207
  shared_range = ground arith

  this_network_range : (a == 0) ≡ inside (number_of a b c d) 0 16777215
  this_network_range = ground arith

  broadcast_range :
      (a == 255 && b == 255 && c == 255 && d == 255)
      ≡ inside (number_of a b c d) 4294967295 4294967295
  broadcast_range = ground arith

  extra_range : in_blocked_extra_cidrs (v4 a b c d) ≡ (
      inside (number_of a b c d) 1681915904 1686110207
      || inside (number_of a b c d) 0 16777215
      || inside (number_of a b c d) 4294967295 4294967295)
  unfolding in_blocked_extra_cidrs
  extra_range = rw (shared_range, this_network_range, broadcast_range) refl

-- Nine ranges in two orders, with two more that are parts of ranges.
reorder :
    (r1 r2 r3 r4 r5 r6 r7 r8 r9 llm zero : Bool)
    → (llm ≡ true → r8 ≡ true)
    → (zero ≡ true → r1 ≡ true)
    → (r4 || (r2 || r6 || r7) || r5 || llm || zero || r8 || (r3 || r1 || r9))
      ≡ (r1 || (r2 || (r3 || (r4 || (r5 || (r6 || (r7 || (r8 || (r9 || false)))))))))
reorder r1 r2 r3 r4 r5 r6 r7 r8 r9 llm zero h k = ground arith

-- isBlockedIP blocks an IPv4 address exactly when its number is in one of nine ranges.
pub is_blocked_ip_lem :
    (a b c d : ℕ)
    → IsOctets a b c d
    → is_blocked_ip (v4 a b c d) ≡ within (number_of a b c d) blocked_ranges
unfolding is_blocked_ip to_4 is_blocked_4
is_blocked_ip_lem a b c d h =
    let n = number_of a b c d in
    rw
      (
        loopback_range a b c d h,
        private_range a b c d h,
        link_local_range a b c d h,
        extra_range a b c d h,
        multicast_range a b c d h,
      )
      (reorder (inside n 0 16777215) (inside n 167772160 184549375) (inside n 1681915904 1686110207)
        (inside n 2130706432 2147483647) (inside n 2851995648 2852061183)
        (inside n 2886729728 2887778303) (inside n 3232235520 3232301055)
        (inside n 3758096384 4026531839) (inside n 4294967295 4294967295)
        (is_link_local_multicast (v4 a b c d)) (is_unspecified (v4 a b c d))
        (λ k. sym (multicast_range a b c d h) ∙ link_local_multicast_range a b c d h k)
        (unspecified_range a b c d h))
