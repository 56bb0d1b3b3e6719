-- ===== src/Webhook/Signer/Order.antt =====
-- go/internal/webhook/signer.go: the bytewise order, and that an ascending list of texts is fixed by
-- what it holds.
use mathlib.Core.Path.{ap₂}
use sipgate_sip_stream_bridg.Prelude.{
  ◌≡◌, refl, sym, ap, ◌∙◌, Bool, true, false, ◌&&◌, ◌||◌, List, [], ◌∷◌, arith, Bool-cases, inl,
  inr, not, subst,
}
use sipgate_sip_stream_bridg.Prelude.Text.{Text, same, same_iff}
use sipgate_sip_stream_bridg.Webhook.Signer.{lt_text, insert_text, sort_strings, holds}

lt_text_trans : (a b c : Text) → lt_text a b ≡ true → lt_text b c ≡ true → lt_text a c ≡ true
unfolding lt_text
lt_text_trans [] [] c p q = absurd (cc)
lt_text_trans [] (y ∷ b) [] p q = absurd (cc)
lt_text_trans [] (y ∷ b) (z ∷ c) p q = refl
lt_text_trans (x ∷ a) [] c p q = absurd (cc)
lt_text_trans (x ∷ a) (y ∷ b) [] p q = absurd (cc)
lt_text_trans (x ∷ a) (y ∷ b) (z ∷ c) p q = ground (arith, lt_text_trans a b c)

lt_text_irrefl : (a : Text) → lt_text a a ≡ false
unfolding lt_text
lt_text_irrefl [] = refl
lt_text_irrefl (x ∷ a) = ground (arith, lt_text_irrefl a)

lt_text_total : (a b : Text) → lt_text a b ≡ false → lt_text b a ≡ false → a ≡ b
unfolding lt_text
lt_text_total [] [] p q = refl
lt_text_total [] (y ∷ b) p q = absurd (cc)
lt_text_total (x ∷ a) [] p q = absurd (cc)
lt_text_total (x ∷ a) (y ∷ b) p q = ground (arith, lt_text_total a b)

same_refl : (a : Text) → same a a ≡ true
same_refl a = (same_iff a a).1 refl

same-lt_text : (a b : Text) → lt_text a b ≡ true → same a b ≡ false
same-lt_text a b p = elim (Bool-cases (same a b)) [
  | inl e ↦
      let equal : a ≡ b = (same_iff a b).0 e in
      let self = subst (λ t. lt_text a t ≡ true) (sym equal) p in absurd (cc (lt_text_irrefl a))
  | inr e ↦ e
]

same_comm : (a b : Text) → same a b ≡ same b a
unfolding same
same_comm [] [] = refl
same_comm [] (y ∷ b) = refl
same_comm (x ∷ a) [] = refl
same_comm (x ∷ a) (y ∷ b) = ground (arith, same_comm a b)

lt_text_of : (a b : Text) → same a b ≡ false → lt_text a b ≡ false → lt_text b a ≡ true
lt_text_of a b p q = elim (Bool-cases (lt_text b a)) [
  | inl e ↦ e
  | inr e ↦ absurd (ground (arith, p, same_iff a b, lt_text_total a b q e))
]

-- Whether a text stands before all of a list, and whether a list is strictly ascending.
abbrev pub before_all : Text → List Text → Bool
before_all x [] = true
before_all x (y ∷ l) = lt_text x y && before_all x l

abbrev pub ascending : List Text → Bool
ascending [] = true
ascending (x ∷ l) = before_all x l && ascending l

before_all_trans :
    (a b : Text) (l : List Text)
    → lt_text a b ≡ true
    → before_all b l ≡ true
    → before_all a l ≡ true
before_all_trans a b [] p q = refl
before_all_trans a b (c ∷ l) p q = ground (arith, lt_text_trans a b c, before_all_trans a b l)

-- What stands before all of a list is not in it.
before_all-holds : (x : Text) (l : List Text) → before_all x l ≡ true → holds x l ≡ false
unfolding holds
before_all-holds x [] p = refl
before_all-holds x (y ∷ l) p = ground (arith, same-lt_text x y, same_comm x y, before_all-holds x l)

before_all-insert_text :
    (x y : Text) (l : List Text) → before_all x (insert_text y l) ≡ (lt_text x y && before_all x l)
unfolding insert_text
before_all-insert_text x y [] = refl
before_all-insert_text x y (z ∷ l) = ground (arith, before_all-insert_text x y l)

pub holds-insert_text :
    (x y : Text) (l : List Text) → holds x (insert_text y l) ≡ (same y x || holds x l)
unfolding holds insert_text
holds-insert_text x y [] = refl
holds-insert_text x y (z ∷ l) = ground (arith, holds-insert_text x y l)

ascending-insert_text :
    (y : Text) (l : List Text)
    → ascending l ≡ true
    → holds y l ≡ false
    → ascending (insert_text y l) ≡ true
unfolding holds insert_text
ascending-insert_text y [] p q = refl
ascending-insert_text y (z ∷ l) p q = ground (
  arith,
  lt_text_of z y,
  before_all-insert_text z y l,
  ascending-insert_text y l,
  before_all_trans y z l,
)

not_before :
    (a b : Text) (r : List Text)
    → ascending (b ∷ r) ≡ true
    → holds a (b ∷ r) ≡ true
    → lt_text a b ≡ false
unfolding holds
not_before a b r p h = elim (Bool-cases (lt_text a b)) [
  | inr e ↦ e
  | inl e ↦ absurd (
      ground (
        arith,
        p,
        h,
        e,
        same-lt_text a b e,
        same_comm a b,
        before_all_trans a b r,
        before_all-holds a r,
      ))
]

-- Two ascending lists that hold the same texts are one list.
pub ascending_ext :
    (l r : List Text)
    → ascending l ≡ true
    → ascending r ≡ true
    → ((x : Text) → holds x l ≡ holds x r)
    → l ≡ r
unfolding holds
ascending_ext [] [] p q h = refl
ascending_ext [] (b ∷ r) p q h = absurd (ground (arith, h b, same_refl b))
ascending_ext (a ∷ l) [] p q h = absurd (ground (arith, h a, same_refl a))
ascending_ext (a ∷ l) (b ∷ r) p q h =
    let mine : holds a (a ∷ l) ≡ true = ground (arith, same_refl a) in
    let theirs : holds b (b ∷ r) ≡ true = ground (arith, same_refl b) in
    let heads : a ≡ b =
      lt_text_total a b (not_before a b r q (sym (h a) ∙ mine))
        (not_before b a l p (h b ∙ theirs)) in
    ap₂ ◌∷◌ heads (ascending_ext l r (ground (arith, p)) (ground (arith, q)) λ x. tails x heads)
  where
    tails : (x : Text) → a ≡ b → holds x l ≡ holds x r
    tails x e = elim (Bool-cases (same a x)) [
      | inr s ↦ ground (arith, h x, s, ap (λ t. same t x) e)
      | inl s ↦
          let here : a ≡ x = (same_iff a x).0 s in
          let left : holds a l ≡ false = before_all-holds a l (ground (arith, p)) in
          let right : holds b r ≡ false = before_all-holds b r (ground (arith, q)) in
          cc (here, e, left, right)
    ]

-- Whether no text is in a list twice.
abbrev pub distinct : List Text → Bool
distinct [] = true
distinct (x ∷ l) = not (holds x l) && distinct l

pub holds-sort_strings : (x : Text) (l : List Text) → holds x (sort_strings l) ≡ holds x l
unfolding holds sort_strings
holds-sort_strings x [] = refl
holds-sort_strings x (y ∷ l) =
    ground (arith, holds-insert_text x y (sort_strings l), holds-sort_strings x l)

ascending-sort_strings : (l : List Text) → distinct l ≡ true → ascending (sort_strings l) ≡ true
unfolding sort_strings
ascending-sort_strings [] p = refl
ascending-sort_strings (x ∷ l) p =
    ascending-insert_text x (sort_strings l) (ascending-sort_strings l (ground (arith, p)))
      (ground (arith, p, holds-sort_strings x l))

-- The sort of texts without repetition depends only on which they are.
pub sort_strings_ext :
    (l r : List Text)
    → distinct l ≡ true
    → distinct r ≡ true
    → ((x : Text) → holds x l ≡ holds x r)
    → sort_strings l ≡ sort_strings r
sort_strings_ext l r p q h =
    ascending_ext (sort_strings l) (sort_strings r) (ascending-sort_strings l p)
      (ascending-sort_strings r q)
      (λ x. holds-sort_strings x l ∙ (h x ∙ sym (holds-sort_strings x r)))
