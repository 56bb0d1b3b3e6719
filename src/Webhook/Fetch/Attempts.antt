-- ===== src/Webhook/Fetch/Attempts.antt =====
-- go/internal/webhook/client.go: which URL a fetched document comes from.
use sipgate_sip_stream_bridg.Prelude.{
  ℕ, ◌≤◌, ◌<◌, ◌≡◌, refl, sym, ap, ◌∙◌, String, true, false, ◌⊎◌, inl, inr, arith, str_eq,
  Bool-cases,
}
use sipgate_sip_stream_bridg.Prelude.Text.{Text, codes, starts_with}
use sipgate_sip_stream_bridg.Webhook.Fetch.{
  FetchTarget, FetchResult, FetchError, Send, request_of, result_of, fetch, is_caller_error,
  after_fallback, after_primary, fetch_with_fallback,
}

-- What a fetched document stands for: an answer of 2xx to a request of the https URL.
abbrev pub Fetched : Send → FetchTarget → FetchResult → Type 0
Fetched send t r =
    (starts_with (codes "https://") (codes t.url) ≡ true)
    × (send (request_of t) ≡ inr (r.status_code, r.body))
    × (r.url_used ≡ t.url)
    × (200 ≤ r.status_code)
    × (r.status_code < 300)

result_of-range :
    (url : String) (o : FetchError ⊎ (ℕ × Text)) (r : FetchResult)
    → result_of url o ≡ inr r
    → (o ≡ inr (r.status_code, r.body))
      × (r.url_used ≡ url)
      × (200 ≤ r.status_code)
      × (r.status_code < 300)
      × (r.attempts ≡ 1)
unfolding result_of
result_of-range url (inl e) r h = ground arith
result_of-range url (inr (status, body)) r h = ground arith

fetch-Fetched :
    (send : Send) (t : FetchTarget) (r : FetchResult)
    → fetch send t ≡ inr r
    → Fetched send t r × (r.attempts ≡ 1)
unfolding fetch
fetch-Fetched send t r h = ground (arith, result_of-range t.url (send (request_of t)) r)

abbrev result_attempts : FetchError ⊎ FetchResult → ℕ
result_attempts (inl e) = 0
result_attempts (inr r) = r.attempts

no_result : {e : FetchError} {r : FetchResult} → inl e ≡ inr r → ⊥
no_result h = cc

-- The second attempt succeeded: its result, with the count changed.
after_fallback-inr :
    (e : FetchError) (o : FetchError ⊎ FetchResult) (r : FetchResult)
    → after_fallback e o ≡ inr r
    → (r.attempts ≡ 2) × (o ≡ inr (record r { attempts = (result_attempts o) }))
unfolding after_fallback
after_fallback-inr e (inl e') r h = absurd (cc)
after_fallback-inr e (inr r') r h =
    let same : record r' { attempts = 2 } ≡ r = cc in
    (
      ap (λ (x : FetchResult). x.attempts) (sym same),
      ap (λ (x : FetchResult). inr (record x { attempts = r'.attempts })) same,
    )

after_primary_lem :
    (send : Send) (primary fallback : FetchTarget) (o : FetchError ⊎ FetchResult) (r : FetchResult)
    → fetch send primary ≡ o
    → after_primary send fallback o ≡ inr r
    → ((r.attempts ≡ 1) × Fetched send primary r)
      ⊎ ((r.attempts ≡ 2)
          × Fetched send fallback r
          × ((e : FetchError) × (fetch send primary ≡ inl e) × (is_caller_error e ≡ false)))
unfolding after_primary
after_primary_lem send primary fallback (inr r') r e h =
    let (fetched, first) = fetch-Fetched send primary r (e ∙ h) in inl (first, fetched)
after_primary_lem send primary fallback (inl x) r e h = elim (Bool-cases (is_caller_error x)) [
  | inl c ↦ absurd (no_result (rw c at h))
  | inr c ↦ elim (Bool-cases (str_eq fallback.url "")) [
    | inl u ↦ absurd (no_result (rw (c, u) at h))
    | inr u ↦
        let (second, o) = after_fallback-inr x (fetch send fallback) r (rw (c, u) at h) in
        let (fetched, _) = fetch-Fetched send fallback _ o in inr (second, fetched, (x, e, c))
  ]
]

-- If FetchWithFallback returns a document, a https URL answered with a status of 2xx and that body: the
-- primary one at the first attempt, or the fallback at the second, after the primary had failed.
fetch_with_fallback_lem :
    (send : Send) (primary fallback : FetchTarget) (r : FetchResult)
    → fetch_with_fallback send primary fallback ≡ inr r
    → ((r.attempts ≡ 1) × Fetched send primary r)
      ⊎ ((r.attempts ≡ 2)
          × Fetched send fallback r
          × ((e : FetchError) × (fetch send primary ≡ inl e) × (is_caller_error e ≡ false)))
unfolding fetch_with_fallback
fetch_with_fallback_lem send primary fallback r h =
    after_primary_lem send primary fallback (fetch send primary) r refl h
