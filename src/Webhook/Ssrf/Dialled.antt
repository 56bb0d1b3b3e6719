-- ===== src/Webhook/Ssrf/Dialled.antt =====
-- What passes the two stages of ssrf.go.
use sipgate_sip_stream_bridg.Prelude.{
  ℕ, ◌+◌, ◌≡◌, String, false, Option, none, some, List, [], ◌∷◌, inl, inr, arith, All, Option-cases,
  Bool-cases,
}
use sipgate_sip_stream_bridg.Webhook.Ssrf.{
  Ip, is_blocked_ip, dials, any_blocked, dial_context, dial_resolved,
}

any_blocked_none :
    (ips : List Ip) → any_blocked ips ≡ false → All (λ ip. is_blocked_ip ip ≡ false) ips
unfolding any_blocked
any_blocked_none [] h = tt
any_blocked_none (ip ∷ ips) h = (ground arith, any_blocked_none ips (ground arith))

dial_resolved_lem :
    (answer : Option (List Ip)) (given port : String) (ip : Ip)
    → dial_resolved answer given ≡ dials ip port
    → (given ≡ port)
      × (rest : List Ip) × (answer ≡ some (ip ∷ rest))
      × All (λ i. is_blocked_ip i ≡ false) (ip ∷ rest)
dial_resolved_lem none given port ip h = cc
dial_resolved_lem (some []) given port ip h = cc
dial_resolved_lem (some (i ∷ ips)) given port ip h = elim (Bool-cases (any_blocked (i ∷ ips))) [
  | inl e ↦ ground arith
  | inr e ↦
      let same : dials i given ≡ dials ip port = ground arith in
      let same_ip : i ≡ ip = cc in
      let (k, ks) = any_blocked_none (i ∷ ips) e in (cc, ips, cc, (rw⁻¹ same_ip k, ks))
]

-- When DialContext dials, it has made exactly one lookup, whatever others would answer: the address is
-- the first one that this lookup of the host has resolved, the port is that of the request, and no
-- address of the lookup is blocked.
pub dial_context_lem :
    (split : String → Option (String × String)) (lookup : ℕ → String → Option (List Ip))
    (addr port : String) (n : ℕ) (ip : Ip)
    → (dial_context split lookup addr n).0 ≡ dials ip port
    → ((dial_context split lookup addr n).1 ≡ n + 1)
      × (host : String) × (rest : List Ip) × (split addr ≡ some (host, port))
      × (lookup n host ≡ some (ip ∷ rest))
      × All (λ i. is_blocked_ip i ≡ false) (ip ∷ rest)
unfolding dial_context
dial_context_lem split lookup addr port n ip h = elim (Option-cases (split addr)) [
  | inl e ↦ ground arith
  | inr (hp, e) ↦
      let (p, rest, found, free) = dial_resolved_lem (lookup n hp.0) hp.1 port ip (ground arith) in
      (ground arith, hp.0, rest, ground arith, found, free)
]
