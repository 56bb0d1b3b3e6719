-- ===== src/Webhook/Signer/Canonical.antt =====
-- go/internal/webhook/signer.go: a signature depends only on which values a form has for which keys.
use sipgate_sip_stream_bridg.Prelude.{
  ℕ, ◌≡◌, refl, sym, ap, ◌∙◌, true, ◌&&◌, not, List, [], ◌∷◌, arith, Bool-cases, inl, inr,
}
use sipgate_sip_stream_bridg.Prelude.Text.{Text, same, same_iff}
use sipgate_sip_stream_bridg.Webhook.Signer.{
  Form, sort_strings, holds, unique_from, values, keys, append_keys, signed_text, sign,
}
use sipgate_sip_stream_bridg.Webhook.Signer.Order.{distinct, sort_strings_ext}

holds-same : (x y : Text) (l : List Text) → same x y ≡ true → holds x l ≡ holds y l
holds-same x y l h = ap (λ t. holds t l) ((same_iff x y).0 h)

holds-unique_from :
    (x : Text) (seen vs : List Text)
    → holds x (unique_from seen vs) ≡ (holds x vs && not (holds x seen))
unfolding holds unique_from
holds-unique_from x seen [] = refl
holds-unique_from x seen (v ∷ vs) = elim (Bool-cases (holds v seen)) [
  | inl e ↦ rw e (ground (arith, e, holds-same v x seen, holds-unique_from x seen vs))
  | inr e ↦ rw e (ground (arith, e, holds-same v x seen, holds-unique_from x (v ∷ seen) vs))
]

distinct-unique_from : (seen vs : List Text) → distinct (unique_from seen vs) ≡ true
unfolding unique_from holds
distinct-unique_from seen [] = refl
distinct-unique_from seen (v ∷ vs) = ground (
  arith,
  (same_iff v v).1 refl,
  holds-unique_from v (v ∷ seen) vs,
  distinct-unique_from seen vs,
  distinct-unique_from (v ∷ seen) vs,
)

append_keys_ext :
    (p q : Form) (ks : List Text) (s : Text)
    → ((k : Text)
        → sort_strings (unique_from [] (values k p)) ≡ sort_strings (unique_from [] (values k q)))
    → append_keys s p ks ≡ append_keys s q ks
unfolding append_keys
append_keys_ext p q [] s h = refl
append_keys_ext p q (k ∷ ks) s h = rw (h k) (append_keys_ext p q ks _ h)

holds_unique : (x : Text) (vs : List Text) → holds x (unique_from [] vs) ≡ holds x vs
unfolding holds
holds_unique x vs = ground (arith, holds-unique_from x [] vs)

-- Two forms without repeated keys, whose keys are the same and have the same values, in whatever order
-- and however often, have the same signature.
pub sign_ext :
    (hmac_sha1 : Text → Text → List ℕ) (base64 : List ℕ → Text) (auth_token url : Text) (p q : Form)
    → distinct (keys p) ≡ true
    → distinct (keys q) ≡ true
    → ((k : Text) → holds k (keys p) ≡ holds k (keys q))
    → ((k v : Text) → holds v (values k p) ≡ holds v (values k q))
    → sign hmac_sha1 base64 auth_token url p ≡ sign hmac_sha1 base64 auth_token url q
unfolding sign signed_text
sign_ext hmac_sha1 base64 auth_token url p q dp dq same_keys same_values =
    let sorted_keys : sort_strings (keys p) ≡ sort_strings (keys q) =
      sort_strings_ext (keys p) (keys q) dp dq same_keys in
    let sorted_values : (k : Text)
        → sort_strings (unique_from [] (values k p)) ≡ sort_strings (unique_from [] (values k q)) =
      λ k.
        sort_strings_ext (unique_from [] (values k p)) (unique_from [] (values k q))
          (distinct-unique_from [] (values k p)) (distinct-unique_from [] (values k q))
          (λ v.
            holds_unique v (values k p) ∙ (same_values k v ∙ sym (holds_unique v (values k q)))) in
    ap (λ s. base64 (hmac_sha1 auth_token s))
      (append_keys_ext p q (sort_strings (keys p)) url sorted_values
        ∙ ap (append_keys url q) sorted_keys)
