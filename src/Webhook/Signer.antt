-- ===== src/Webhook/Signer.antt =====
-- go/internal/webhook/signer.go: the signature of a webhook, over texts as their bytes. A form is the
-- entries of a Go map from keys to values, in the order of an iteration, no key twice. `hmac_sha1` and
-- `base64` stand for the libraries of these names, `parse_query` for url.ParseQuery, `inner` for the
-- transport below with the header that it is given.
pub mod Order
pub mod Canonical
use sipgate_sip_stream_bridg.Prelude.{
  ℕ, Bool, true, false, ◌||◌, Option, none, some, List, [], ◌∷◌, ◌++◌, ◌⊎◌, inl, inr, ltb,
  if◌then◌else◌, map,
}
use sipgate_sip_stream_bridg.Prelude.Text.{Text, codes, same, is_empty}

abbrev pub Form : Type 0
Form = List (Text × List Text)

-- The order of sort.Strings: bytewise.
unfoldable pub lt_text : Text → Text → Bool
lt_text [] [] = false
lt_text [] (d ∷ t) = true
lt_text (c ∷ s) [] = false
lt_text (c ∷ s) (d ∷ t) = if ltb c d then true else if ltb d c then false else lt_text s t

unfoldable pub insert_text : Text → List Text → List Text
unfolding lt_text
insert_text x [] = x ∷ []
insert_text x (y ∷ l) = let rest = insert_text x l in if lt_text y x then y ∷ rest else x ∷ y ∷ l

-- sort.Strings
unfoldable pub sort_strings : List Text → List Text
unfolding insert_text
sort_strings [] = []
sort_strings (x ∷ l) = insert_text x (sort_strings l)

-- Whether a text is in a list, such as the keys of the map `seen`.
unfoldable pub holds : Text → List Text → Bool
unfolding same
holds x [] = false
holds x (y ∷ l) = same y x || holds x l

-- The loop that drops the repeated values of a key.
unfoldable pub unique_from : List Text → List Text → List Text
unfolding holds
unique_from seen [] = []
unique_from seen (v ∷ vs) =
    let skipped = unique_from seen vs in
    let kept = unique_from (v ∷ seen) vs in if holds v seen then skipped else v ∷ kept

-- params[k]
unfoldable pub values : Text → Form → List Text
unfolding same
values k [] = []
values k ((j, vs) ∷ params) = let rest = values k params in if same j k then vs else rest

unfoldable pub keys : Form → List Text
keys [] = []
keys ((k, vs) ∷ params) = k ∷ keys params

-- s += k + v, for each value
unfoldable pub append_values : Text → Text → List Text → Text
append_values s k [] = s
append_values s k (v ∷ vs) = append_values (s ++ (k ++ v)) k vs

unfoldable pub append_keys : Text → Form → List Text → Text
unfolding append_values values unique_from sort_strings
append_keys s params [] = s
append_keys s params (k ∷ ks) =
    append_keys (append_values s k (sort_strings (unique_from [] (values k params)))) params ks

-- What the signature is over.
unfoldable pub signed_text : Text → Form → Text
unfolding append_keys sort_strings keys
signed_text url params = append_keys url params (sort_strings (keys params))

module _ (hmac_sha1 : Text → Text → List ℕ) (base64 : List ℕ → Text) where
  unfoldable pub sign : Text → Text → Form → Text
  unfolding signed_text
  sign auth_token url params = base64 (hmac_sha1 auth_token (signed_text url params))

  -- A request before it is signed; `raw_url` is the URL of SignWithContext, empty if there is none.
  pub record Request : Type 0 where
    pub is_post : Bool
    pub url : Text
    pub raw_url : Text
    pub body : Option Text

  unfoldable pub signed_url : Request → Text
  unfolding is_empty
  signed_url r = if is_empty r.raw_url then r.url else r.raw_url

  -- The signature that RoundTrip puts into the header, or its error.
  unfoldable pub signature_of : (Text → Option Form) → Text → Request → Option Text
  unfolding sign signed_url
  signature_of parse_query auth_token r = elim r.body [
    | none ↦ some (sign auth_token (signed_url r) [])
    | some body ↦
        if r.is_post
        then elim (parse_query body) [
          | none ↦ none
          | some params ↦ some (sign auth_token (signed_url r) params)
        ]
        else some (sign auth_token (signed_url r) [])
  ]
