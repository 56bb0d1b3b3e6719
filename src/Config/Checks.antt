-- ===== src/Config/Checks.antt =====
-- go/internal/config/config.go: what each check of Load leaves of a Config that passes it, and which
-- fields it sets.
use sipgate_sip_stream_bridg.Prelude.{
  ◌≡◌, sym, ap, subst, ◌∙◌, true, false, not, [], ◌⊎◌, inl, inr, arith, All, Bool-cases,
}
use sipgate_sip_stream_bridg.Prelude.Text.{Text, is_empty}
use sipgate_sip_stream_bridg.Config.{
  Config, check_targets, check_fallback, checked_fallback, check_voice, checked_voice,
  with_fallback_method, with_voice_method, with_events, with_callback_method, check_callback,
  checked_callback, check_timeout,
}
use sipgate_sip_stream_bridg.Config.Tests.{
  fallback_url_scheme, fallback_method_unknown, and_then, between, is_http_url, checked_method,
  callback_url_scheme, callback_method_unknown, no_event, voice_url_scheme, voice_method_unknown,
  voice_timeout,
}
use sipgate_sip_stream_bridg.Config.Lists.{split_from, check_events}
use sipgate_sip_stream_bridg.Config.Tests.Passed.{
  InRange, IsMethod, IsEvent, Some, require-ok, and_then-ok, if-ok, value, between-InRange,
  checked_method-IsMethod, no_value, check_events-All, check_events-Some,
}

abbrev pub OneTarget : Config → Type 0
OneTarget c = is_empty c.ws_target_url ≡ not (is_empty c.voice_url)

abbrev pub VoiceChecked : Config → Type 0
VoiceChecked c =
    (is_empty c.voice_url ≡ true)
    ⊎ ((is_http_url c.voice_url ≡ true)
        × IsMethod c.voice_method
        × ((is_empty c.voice_fallback_url ≡ true)
            ⊎ ((is_http_url c.voice_fallback_url ≡ true) × IsMethod c.voice_fallback_method))
        × InRange 1 15 c.voice_timeout_s)

abbrev pub CallbackChecked : Config → Type 0
CallbackChecked c =
    (is_empty c.status_callback_default_url ≡ true)
    ⊎ ((is_http_url c.status_callback_default_url ≡ true)
        × IsMethod c.status_callback_default_method
        × All IsEvent (split_from [] c.status_callback_default_events)
        × Some (split_from [] c.status_callback_default_events))

pub check_targets-OneTarget : (c c' : Config) → check_targets c ≡ inr c' → (c ≡ c') × OneTarget c
unfolding check_targets
check_targets-OneTarget c c' h = elim (Bool-cases (is_empty c.ws_target_url)) [
  | inl w ↦ elim (Bool-cases (is_empty c.voice_url)) [
    | inl v ↦ absurd (no_value (rw (w, v) at h))
    | inr v ↦ (value (rw (w, v) at h), ground (arith, w, v))
  ]
  | inr w ↦ elim (Bool-cases (is_empty c.voice_url)) [
    | inl v ↦ (value (rw (w, v) at h), ground (arith, w, v))
    | inr v ↦ absurd (no_value (rw (w, v) at h))
  ]
]

abbrev pub FallbackChecked : Text → Text → Type 0
FallbackChecked url method = (is_empty url ≡ true) ⊎ ((is_http_url url ≡ true) × IsMethod method)

pub check_fallback-ok :
    (c c' : Config)
    → check_fallback c ≡ inr c'
    → (m : Text) × (record c { voice_fallback_method = m } ≡ c')
      × FallbackChecked c.voice_fallback_url m
unfolding check_fallback checked_fallback with_fallback_method
check_fallback-ok c c' h =
    elim (if-ok (is_empty c.voice_fallback_url) (inr c) (checked_fallback c) c' h) [
      | inl (e, g) ↦ (c.voice_fallback_method, value g, inl e)
      | inr (e, g) ↦
          let checked = checked_method fallback_method_unknown c.voice_fallback_method in
          let (scheme, g1) =
            require-ok (is_http_url c.voice_fallback_url) fallback_url_scheme
              (and_then checked (with_fallback_method c)) c' g in
          let (m, g2, g3) = and_then-ok checked (with_fallback_method c) c' g1 in
          (
            m,
            value g3,
            inr (
              scheme,
              checked_method-IsMethod fallback_method_unknown c.voice_fallback_method m g2,
            ),
          )
    ]

pub check_voice-ok :
    (c c' : Config)
    → check_voice c ≡ inr c'
    → (m n : Text) × (record c { voice_method = m; voice_fallback_method = n } ≡ c')
      × VoiceChecked (record c { voice_method = m; voice_fallback_method = n })
unfolding check_voice checked_voice with_voice_method check_timeout
check_voice-ok c c' h = elim (if-ok (is_empty c.voice_url) (inr c) (checked_voice c) c' h) [
  | inl (e, g) ↦ (c.voice_method, c.voice_fallback_method, value g, inl e)
  | inr (e, g) ↦
      let checked = checked_method voice_method_unknown c.voice_method in
      let (scheme, g1) =
        require-ok (is_http_url c.voice_url) voice_url_scheme
          (and_then checked (with_voice_method c)) c' g in
      let (m, g2, g3) = and_then-ok checked (with_voice_method c) c' g1 in
      let (c2, g4, g5) =
        and_then-ok (check_fallback (record c { voice_method = m })) check_timeout c' g3 in
      let (n, eq, fallback) = check_fallback-ok (record c { voice_method = m }) c2 g4 in
      let (timely, g6) =
        require-ok (between 1 15 c2.voice_timeout_s) voice_timeout (inr c2) c' g5 in
      (
        m,
        n,
        eq ∙ value g6,
        inr (
          scheme,
          checked_method-IsMethod voice_method_unknown c.voice_method m g2,
          fallback,
          subst (λ (x : Config). InRange 1 15 x.voice_timeout_s) (sym eq)
              (between-InRange 1 15 c2.voice_timeout_s timely),
        ),
      )
]

pub check_callback-ok :
    (c c' : Config)
    → check_callback c ≡ inr c'
    → (m : Text) × (record c { status_callback_default_method = m } ≡ c')
      × CallbackChecked (record c { status_callback_default_method = m })
unfolding check_callback checked_callback with_callback_method with_events
check_callback-ok c c' h =
    elim (if-ok (is_empty c.status_callback_default_url) (inr c) (checked_callback c) c' h) [
      | inl (e, g) ↦ (c.status_callback_default_method, value g, inl e)
      | inr (e, g) ↦
          let events = split_from [] c.status_callback_default_events in
          let checked = checked_method callback_method_unknown c.status_callback_default_method in
          let (scheme, g1) =
            require-ok (is_http_url c.status_callback_default_url) callback_url_scheme
              (and_then checked (with_callback_method c)) c' g in
          let (m, g2, g3) = and_then-ok checked (with_callback_method c) c' g1 in
          let (any, g4, g5) = and_then-ok (check_events false events) (with_events c m) c' g3 in
          let (some_event, g6) =
            require-ok any no_event (inr (record c { status_callback_default_method = m })) c' g5 in
          (
            m,
            value g6,
            inr (
              scheme,
              checked_method-IsMethod callback_method_unknown c.status_callback_default_method m g2,
              check_events-All false events any g4,
              check_events-Some events (g4 ∙ ap inr some_event),
            ),
          )
    ]
