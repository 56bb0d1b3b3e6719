-- ===== src/Api/Guard/Mounted.antt =====
-- go/internal/api/server.go with security.go and auth.go: which requests reach a handler that Mount has
-- installed, and what the others get.
use sipgate_sip_stream_bridg.Prelude.{
  ltb, ℕ, ◌<◌, ◌≡◌, refl, ◌∙◌, String, true, false, ◌||◌, Option, none, some, [], ◌∷◌, ◌++◌, ◌⊎◌,
  inl, inr, arith, Bool-cases, str_eq, str_eq_iff, str_eq_refl,
}
use sipgate_sip_stream_bridg.Prelude.Int.{ℤ, pos, negsuc}
use sipgate_sip_stream_bridg.Prelude.Dict.{Dict, load, store, load-store, dict_laws}
use sipgate_sip_stream_bridg.Api.Guard.{
  Request, Response, Handler, write_error, unauth, secured, is_longer, is_authorized, bucket_status,
  Counted, security_headers, max_bytes_reader, basic_auth, metrics_middleware, mount,
}

abbrev pub IsSecured : Dict String → Type 0
IsSecured headers =
    (load "X-Content-Type-Options" headers ≡ some "nosniff")
    × (load "Content-Security-Policy" headers ≡ some "default-src 'none'; frame-ancestors 'none'")
    × (load "Strict-Transport-Security" headers ≡ some "max-age=63072000; includeSubDomains")

-- The credentials of the account, for a path without an account or with this one.
abbrev pub IsCredited : String → String → Request → Type 0
IsCredited account_sid auth_token r =
    (r.credentials ≡ some (account_sid, auth_token))
    × ((r.path_sid ≡ "") ⊎ (r.path_sid ≡ account_sid))

abbrev pub Oversize : Request → Type 0
Oversize r = (n : ℕ) × (r.content_length ≡ pos n) × (65_536 < n)

secured-IsSecured : (headers : Dict String) → IsSecured (secured headers)
unfolding secured
secured-IsSecured headers = (simp dict_laws, simp dict_laws, simp dict_laws)

-- A header of another name changes nothing.
store-IsSecured :
    (k v : String) (headers : Dict String)
    → str_eq k "X-Content-Type-Options" ≡ false
    → str_eq k "Content-Security-Policy" ≡ false
    → str_eq k "Strict-Transport-Security" ≡ false
    → IsSecured headers
    → IsSecured (store k v headers)
store-IsSecured k v headers a b c (x, y, z) = (
  load-store k _ v headers ∙ rw a x,
  load-store k _ v headers ∙ rw b y,
  load-store k _ v headers ∙ rw c z,
)

write_error-IsSecured :
    (code status : ℕ) (headers : Dict String)
    → IsSecured headers
    → IsSecured (write_error code status headers).headers
write_error-IsSecured code status headers h =
    store-IsSecured "Content-Type" "application/json" headers refl refl refl h

unauth-IsSecured : (headers : Dict String) → IsSecured headers → IsSecured (unauth headers).headers
unfolding unauth
unauth-IsSecured headers h =
    write_error-IsSecured 20_003 401 _
      (store-IsSecured "WWW-Authenticate" _ headers refl refl refl h)

path_of :
    (account_sid path : String)
    → (str_eq path "" || str_eq path account_sid) ≡ true
    → (path ≡ "") ⊎ (path ≡ account_sid)
path_of account_sid path h = elim (Bool-cases (str_eq path "")) [
  | inl e ↦ inl ((str_eq_iff path "").0 e)
  | inr e ↦ inr ((str_eq_iff path account_sid).0 (ground (arith, h, e)))
]

IsCredited-if :
    (account_sid auth_token : String) (r : Request) (o : Option (String × String))
    → r.credentials ≡ o
    → is_authorized account_sid auth_token (record r { credentials = o }) ≡ true
    → IsCredited account_sid auth_token r
unfolding is_authorized
IsCredited-if account_sid auth_token r none e h = absurd (ground (arith, h))
IsCredited-if account_sid auth_token r (some (user, pass)) e h =
    let same_user : user ≡ account_sid = (str_eq_iff user account_sid).0 (ground (arith, h)) in
    let same_pass : pass ≡ auth_token = (str_eq_iff pass auth_token).0 (ground (arith, h)) in
    (e ∙ ground (arith, same_user, same_pass), path_of account_sid r.path_sid (ground (arith, h)))

IsCredited-is_authorized :
    (account_sid auth_token : String) (r : Request)
    → IsCredited account_sid auth_token r
    → is_authorized account_sid auth_token r ≡ true
unfolding is_authorized
IsCredited-is_authorized account_sid auth_token r (e, inl p) =
    rw (e, p) (ground (arith, str_eq_refl account_sid, str_eq_refl auth_token))
IsCredited-is_authorized account_sid auth_token r (e, inr p) =
    rw (e, p) (ground (arith, str_eq_refl account_sid, str_eq_refl auth_token))

-- Whether the declared length is too large.
Oversize-if :
    (r : Request) (z : ℤ)
    → r.content_length ≡ z
    → ((is_longer 65_536 z ≡ true) × Oversize r) ⊎ ((is_longer 65_536 z ≡ false) × ¬ Oversize r)
unfolding is_longer
Oversize-if r (pos n) e = elim (Bool-cases (ltb 65_536 n)) [
  | inl h ↦ inl (h, (n, e, ground (arith, h)))
  | inr h ↦ inr (h, λ (k, e', more). ground (arith, h, e, e', more))
]
Oversize-if r (negsuc n) e = inr (refl, λ (k, e', more). ground (arith, e, e'))

module _ {ℓ} {S : Type ℓ} (account_sid auth_token route : String) (next : Handler S) where
  -- Of a request: what it gets without the handler, or what the handler gets.
  abbrev pub Guarded : Request → Dict String → Counted S → Counted S × Response → Type ℓ
  Guarded r headers s (t, response) =
      ((t ≡ s)
        × IsSecured response.headers
        × ((Oversize r × (response.status ≡ 413))
            ⊎ (¬ Oversize r × ¬ IsCredited account_sid auth_token r × (response.status ≡ 401))))
      ⊎ (¬ Oversize r
          × IsCredited account_sid auth_token r
          × ((sent : Dict String) × IsSecured sent
              × ((t.inner, response) ≡ next (record r { body_limit = some 65_536 }) sent s.inner)
              × (t.requests
                  ≡ s.requests ++ (route, (r.method, bucket_status response.status)) ∷ [])))

  -- A request reaches the handler of a route exactly if its declared length is at most 65536 and it has
  -- the account's SID and token, for this account's path or one without an account. Then its body is
  -- limited and it is counted once. Else it gets a 413 or a 401 and changes nothing. The three security
  -- headers are set on each.
  pub mount-Guarded :
      (r : Request) (headers : Dict String) (s : Counted S)
      → Guarded r headers s (mount account_sid auth_token route next r headers s)
  unfolding mount security_headers max_bytes_reader basic_auth metrics_middleware
  mount-Guarded r headers s = elim (Oversize-if r r.content_length refl) [
    | inl (e, over) ↦ rw e (
        inl (
          refl,
          write_error-IsSecured 21_617 413 (secured headers) (secured-IsSecured headers),
          inl (over, refl),
        ))
    | inr (e, fits) ↦ elim (Bool-cases (is_authorized account_sid auth_token r)) [
      | inl a ↦
          rw (e, a)
            (inr (
              fits,
              IsCredited-if account_sid auth_token r r.credentials refl a,
              (secured headers, secured-IsSecured headers, refl, refl),
            ))
      | inr a ↦
          rw (e, a)
            (inl (
              refl,
              unauth-IsSecured (secured headers) (secured-IsSecured headers),
              inr (
                fits,
                (λ c. ground (arith, a, IsCredited-is_authorized account_sid auth_token r c)),
                refl,
              ),
            ))
    ]
  ]
