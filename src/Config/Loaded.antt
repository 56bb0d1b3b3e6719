-- ===== src/Config/Loaded.antt =====
-- go/internal/config/config.go: what the rest of the program may rely on in a Config that Load returns.
use sipgate_sip_stream_bridg.Prelude.{
  ◌≡◌, refl, subst, Bool, true, false, Option, none, some, List, [], ◌∷◌, ◌⊎◌, inl, inr, arith, All,
  Bool-cases,
}
use sipgate_sip_stream_bridg.Prelude.Text.{Text, codes, same, same_iff, is_empty}
use sipgate_sip_stream_bridg.Prelude.Int.{ℤ, atoi}
use sipgate_sip_stream_bridg.Config.{
  Config, set_contact_ip, check_targets, check_voice, split_listen_addr, listen_port, bounds,
  check_bounds, check_callback, set_prefixes, with_prefixes, numbered, with_port, after_bounds,
  after_voice, after_targets, load_config,
}
use sipgate_sip_stream_bridg.Config.Tests.{ConfigError, require_all, between, less}
use sipgate_sip_stream_bridg.Config.Lists.{check_prefixes}
use sipgate_sip_stream_bridg.Config.Checks.{
  OneTarget, VoiceChecked, CallbackChecked, check_targets-OneTarget, check_voice-ok,
  check_callback-ok,
}
use sipgate_sip_stream_bridg.Config.Tests.Passed.{
  InRange, AtLeast, IsPrefix, require-ok, and_then-ok, value, between-InRange, at_least-AtLeast,
  check_prefixes-All,
}

require_all-ok :
    {A : Type 0} (tests : List (Bool × ConfigError)) (a a' : A)
    → require_all tests a ≡ inr a'
    → (a ≡ a') × All (λ t. t.0 ≡ true) tests
unfolding require_all
require_all-ok [] a a' h = (value h, tt)
require_all-ok ((b, e) ∷ tests) a a' h =
    let (ok, rest) = require-ok b e (require_all tests a) a' h in
    let (same_value, all_ok) = require_all-ok tests a a' rest in (same_value, (ok, all_ok))

numbered-InRange :
    (host host' : Text) (o : Option ℤ) (n : ℤ)
    → numbered host o ≡ some (host', n)
    → InRange 1 65_535 n
unfolding numbered
numbered-InRange host host' none n h = absurd (ground arith)
numbered-InRange host host' (some k) n h = elim (Bool-cases (between 1 65_535 k)) [
  | inl e ↦
      let same_pair : some (host, k) ≡ some (host', n) = rw e at h in
      subst (InRange 1 65_535) (ground (arith, same_pair)) (between-InRange 1 65_535 k e)
  | inr e ↦ let no_pair : none ≡ some (host', n) = rw e at h in absurd (ground (arith, no_pair))
]

with_port-InRange :
    (o : Option (Text × Text)) (host : Text) (n : ℤ)
    → with_port o ≡ some (host, n)
    → InRange 1 65_535 n
unfolding with_port
with_port-InRange none host n h = absurd (ground arith)
with_port-InRange (some (host', port)) host n h = numbered-InRange host' host (atoi port) n h

module _ (split_host_port : Text → Option (Text × Text)) where
  split_listen_addr-InRange :
      (addr host : Text) (n : ℤ)
      → split_listen_addr split_host_port addr ≡ some (host, n)
      → InRange 1 65_535 n
  unfolding split_listen_addr
  split_listen_addr-InRange addr host n h = elim (Bool-cases (is_empty addr)) [
    | inl e ↦ let no_pair : none ≡ some (host, n) = rw e at h in absurd (ground (arith, no_pair))
    | inr e ↦ with_port-InRange (split_host_port addr) host n (rw e at h)
  ]

  -- The listen address is a host and a port, which is ListenPort's.
  abbrev pub Listens : Config → Type 0
  Listens c =
      (host : Text) × (port : ℤ) × (split_listen_addr split_host_port c.sip_listen_addr
        ≡ some (host, port))
      × (listen_port split_host_port c ≡ port)
      × InRange 1 65_535 port

  abbrev pub Bounded : Config → Type 0
  Bounded c =
      (less c.rtp_port_min c.rtp_port_max ≡ true)
      × ((c.audio_mode ≡ codes "twilio") ⊎ (c.audio_mode ≡ codes "best"))
      × InRange 5 600 c.dial_ring_timeout_s
      × AtLeast 1 c.dial_max_per_session
      × AtLeast 1 c.dial_max_per_minute
      × Listens c
      × InRange 0 65_535 c.sip_outbound_target_port

  Listens-if :
      (c : Config) (o : Option (Text × ℤ))
      → split_listen_addr split_host_port c.sip_listen_addr ≡ o
      → (elim o [ none ↦ false | some p ↦ true ]) ≡ true
      → Listens c
  unfolding listen_port
  Listens-if c none e h = absurd (ground (arith, h))
  Listens-if c (some (host, port)) e h = (
    host,
    port,
    e,
    rw (e, listen_port) refl,
    split_listen_addr-InRange c.sip_listen_addr host port e,
  )

  check_bounds-Bounded :
      (c c' : Config) → check_bounds split_host_port c ≡ inr c' → (c ≡ c') × Bounded c
  unfolding check_bounds
  check_bounds-Bounded c c' h =
      let (eq, all_ok) = require_all-ok (bounds split_host_port c) c c' h in
      let (ports, (audio, (ring, (per_session, (per_minute, (listen, (outbound, _))))))) = all_ok in
      (
        eq,
        (
          ports,
          elim (Bool-cases (same c.audio_mode (codes "twilio"))) [
            | inl t ↦ inl ((same_iff c.audio_mode (codes "twilio")).0 t)
            | inr t ↦ inr ((same_iff c.audio_mode (codes "best")).0 (ground (arith, t, audio)))
          ],
          between-InRange 5 600 c.dial_ring_timeout_s ring,
          at_least-AtLeast 1 c.dial_max_per_session per_session,
          at_least-AtLeast 1 c.dial_max_per_minute per_minute,
          Listens-if c _ refl listen,
          between-InRange 0 65_535 c.sip_outbound_target_port outbound,
        ),
      )

  pub record Valid (c : Config) : Type 0 where
    one_target : OneTarget c
    voice : VoiceChecked c
    bounded : Bounded c
    callback : CallbackChecked c
    prefixes : All IsPrefix c.dial_allowed_prefixes

  -- What holds after each check; the later ones set fields that it does not read.
  set_prefixes-Valid :
      (c c' : Config)
      → OneTarget c × VoiceChecked c × Bounded c × CallbackChecked c
      → set_prefixes c ≡ inr c'
      → Valid c'
  unfolding set_prefixes with_prefixes listen_port
  set_prefixes-Valid c c' (one, voice, bounded, callback) h =
      let (norm, h1, g) =
        and_then-ok (check_prefixes [] c.dial_allowed_prefixes) (with_prefixes c) c' h in
      subst Valid (value g) (record {
        one_target = one;
        voice = voice;
        bounded = bounded;
        callback = callback;
        prefixes = check_prefixes-All [] c.dial_allowed_prefixes norm tt h1;
      })

  after_bounds-Valid :
      (c c' : Config)
      → OneTarget c × VoiceChecked c × Bounded c
      → after_bounds c ≡ inr c'
      → Valid c'
  unfolding after_bounds listen_port
  after_bounds-Valid c c' (one, voice, bounded) h =
      let (c1, h1, g) = and_then-ok (check_callback c) set_prefixes c' h in
      let (m, e, callback) = check_callback-ok c c1 h1 in
      set_prefixes-Valid c1 c'
        (subst (λ (x : Config). OneTarget x × VoiceChecked x × Bounded x × CallbackChecked x) e
          (one, voice, bounded, callback))
        g

  after_voice-Valid :
      (c c' : Config)
      → OneTarget c × VoiceChecked c
      → after_voice split_host_port c ≡ inr c'
      → Valid c'
  unfolding after_voice
  after_voice-Valid c c' (one, voice) h =
      let (c1, h1, g) = and_then-ok (check_bounds split_host_port c) after_bounds c' h in
      let (e, bounded) = check_bounds-Bounded c c1 h1 in
      after_bounds-Valid c1 c'
        (subst (λ (x : Config). OneTarget x × VoiceChecked x × Bounded x) e (one, voice, bounded)) g

  after_targets-Valid :
      (c c' : Config) → OneTarget c → after_targets split_host_port c ≡ inr c' → Valid c'
  unfolding after_targets
  after_targets-Valid c c' one h =
      let (c1, h1, g) = and_then-ok (check_voice c) (after_voice split_host_port) c' h in
      let (m, n, e, voice) = check_voice-ok c c1 h1 in
      after_voice-Valid c1 c' (subst (λ (x : Config). OneTarget x × VoiceChecked x) e (one, voice))
        g

  -- A configuration that Load returns has exactly one of a static target and a voice URL, a voice URL
  -- and a default callback that are absent or complete (http or https, POST or GET in capitals, a
  -- timeout of 1 to 15 s, at least one event and only documented ones), each number in its range, a
  -- listen port of 1 to 65535 for ListenPort, and only digits, after at most a "+", as prefixes.
  pub load_config-Valid :
      (local_ip : Option Text) (c c' : Config)
      → load_config split_host_port local_ip c ≡ inr c'
      → Valid c'
  unfolding load_config
  load_config-Valid local_ip c c' h =
      let found = set_contact_ip local_ip c in
      let (c1, h1, g) = and_then-ok (check_targets found) (after_targets split_host_port) c' h in
      let (e, one) = check_targets-OneTarget found c1 h1 in
      after_targets-Valid c1 c' (subst OneTarget e one) g
