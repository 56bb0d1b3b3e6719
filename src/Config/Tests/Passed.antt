-- ===== src/Config/Tests/Passed.antt =====
-- go/internal/config/config.go: what holds when a test of Load, or the loop over a list, does not exit.
use sipgate_sip_stream_bridg.Prelude.{
  ℕ, ◌≤◌, ◌≡◌, refl, ap, subst, Bool, true, false, List, [], ◌∷◌, ◌++◌, ◌⊎◌, inl, inr, arith, All,
  All-append, Bool-cases, ◌==◌, if◌then◌else◌,
}
use sipgate_sip_stream_bridg.Prelude.Text.{Text, codes, same, same_iff, is_empty, upper}
use sipgate_sip_stream_bridg.Prelude.Int.{ℤ, pos, negsuc}
use sipgate_sip_stream_bridg.Twiml.Events.{valid_status_callback_event}
use sipgate_sip_stream_bridg.Config.Tests.{
  ConfigError, Checked, and_then, require, at_least, between, is_post_or_get, checked_method,
}
use sipgate_sip_stream_bridg.Config.Lists.{
  clean, check_events, all_digits, is_prefix, check_prefixes,
}

abbrev pub InRange : ℕ → ℕ → ℤ → Type 0
InRange low high z = (n : ℕ) × (z ≡ pos n) × (low ≤ n) × (n ≤ high)

abbrev pub AtLeast : ℕ → ℤ → Type 0
AtLeast low z = (n : ℕ) × (z ≡ pos n) × (low ≤ n)

abbrev pub IsMethod : Text → Type 0
IsMethod m = (m ≡ codes "POST") ⊎ (m ≡ codes "GET")

-- A prefix is digits, at least one, or digits after a "+".
abbrev pub IsPrefix : Text → Type 0
IsPrefix p =
    (digits : Text) × All (λ c. (48 ≤ c) × (c ≤ 57)) digits
    × (((p ≡ digits) × (is_empty digits ≡ false)) ⊎ (p ≡ b'+' ∷ digits))

abbrev pub IsEvent : Text → Type 0
IsEvent t = (is_empty (clean t) ≡ true) ⊎ (valid_status_callback_event (clean t) ≡ true)

module _ {A : Type 0} where
  pub require-ok :
      (b : Bool) (e : ConfigError) (r : Checked A) (a : A)
      → require b e r ≡ inr a
      → (b ≡ true) × (r ≡ inr a)
  unfolding require
  require-ok true e r a h = (refl, h)
  require-ok false e r a h = ground arith

  pub and_then-ok :
      {B : Type 0} (r : Checked B) (f : B → Checked A) (a : A)
      → and_then r f ≡ inr a
      → (b : B) × (r ≡ inr b) × (f b ≡ inr a)
  unfolding and_then
  and_then-ok (inl e) f a h = absurd (ground arith)
  and_then-ok (inr b) f a h = (b, refl, h)

  pub if-ok :
      (b : Bool) (x y : Checked A) (a : A)
      → (if b then x else y) ≡ inr a
      → ((b ≡ true) × (x ≡ inr a)) ⊎ ((b ≡ false) × (y ≡ inr a))
  if-ok true x y a h = inl (refl, h)
  if-ok false x y a h = inr (refl, h)

  pub value : {a b : A} → ◌≡◌ {A = Checked A} (inr a) (inr b) → a ≡ b
  value h = ground arith

pub between-InRange : (low high : ℕ) (z : ℤ) → between low high z ≡ true → InRange low high z
unfolding between
between-InRange low high (pos n) h = (n, refl, ground (arith, h), ground (arith, h))
between-InRange low high (negsuc n) h = absurd (ground (arith, h))

pub at_least-AtLeast : (low : ℕ) (z : ℤ) → at_least low z ≡ true → AtLeast low z
unfolding at_least
at_least-AtLeast low (pos n) h = (n, refl, ground (arith, h))
at_least-AtLeast low (negsuc n) h = absurd (ground (arith, h))

pub checked_method-IsMethod :
    (e : ConfigError) (m m' : Text) → checked_method e m ≡ inr m' → IsMethod m'
unfolding checked_method is_post_or_get
checked_method-IsMethod e m m' h =
    let (b, eq) = require-ok _ e (inr (upper m)) m' h in
    subst IsMethod (value eq) (elim (Bool-cases (same (upper m) (codes "POST"))) [
      | inl p ↦ inl ((same_iff (upper m) (codes "POST")).0 p)
      | inr p ↦ inr ((same_iff (upper m) (codes "GET")).0 (ground (arith, p, b)))
    ])

all_digits-All : (s : Text) → all_digits s ≡ true → All (λ c. (48 ≤ c) × (c ≤ 57)) s
unfolding all_digits
all_digits-All [] h = ground arith
all_digits-All (c ∷ s) h = ground (arith, h, all_digits-All s)

is_prefix-IsPrefix : (p : Text) → is_prefix p ≡ true → is_empty p ≡ false → IsPrefix p
unfolding is_prefix is_empty all_digits
is_prefix-IsPrefix [] h n = absurd (ground (arith, n))
is_prefix-IsPrefix (c ∷ s) h n = elim (Bool-cases (c == b'+')) [
  | inl e ↦ (s, all_digits-All s (ground (arith, h)), inr (ap (λ x. x ∷ s) (ground (arith, e))))
  | inr e ↦ (c ∷ s, all_digits-All (c ∷ s) (ground (arith, h, e)), inl (refl, refl))
]

pub no_value : {A : Type 0} {e : ConfigError} {a : A} → inl e ≡ inr a → ⊥
no_value h = ground arith

pub check_prefixes-All :
    (norm ps out : List Text)
    → All IsPrefix norm
    → check_prefixes norm ps ≡ inr out
    → All IsPrefix out
unfolding check_prefixes
check_prefixes-All norm [] out known h = subst (All IsPrefix) (ground (arith, h)) known
check_prefixes-All norm (p ∷ ps) out known h = elim (Bool-cases (is_empty (clean p))) [
  | inl e ↦ check_prefixes-All norm ps out known (rw e at h)
  | inr e ↦ elim (Bool-cases (is_prefix (clean p))) [
    | inl ok ↦
        check_prefixes-All (norm ++ clean p ∷ []) ps out
          (All-append IsPrefix norm (clean p ∷ []) known (is_prefix-IsPrefix (clean p) ok e, tt))
          (rw (e, ok) at h)
    | inr bad ↦ absurd (no_value (rw (e, bad) at h))
  ]
]

-- Every piece is nothing or an event; one is an event if the flag is new.
pub check_events-All :
    (any : Bool) (ts : List Text) (any' : Bool) → check_events any ts ≡ inr any' → All IsEvent ts
unfolding check_events
check_events-All any [] any' h = tt
check_events-All any (t ∷ ts) any' h = elim (Bool-cases (is_empty (clean t))) [
  | inl e ↦ (inl e, check_events-All any ts any' (rw e at h))
  | inr e ↦ elim (Bool-cases (valid_status_callback_event (clean t))) [
    | inl ok ↦ (inr ok, check_events-All true ts any' (rw (e, ok) at h))
    | inr bad ↦ absurd (no_value (rw (e, bad) at h))
  ]
]

abbrev pub Some : List Text → Type 0
Some [] = ⊥
Some (t ∷ ts) = (is_empty (clean t) ≡ false) ⊎ Some ts

pub check_events-Some : (ts : List Text) → check_events false ts ≡ inr true → Some ts
unfolding check_events
check_events-Some [] h = ground (arith, h)
check_events-Some (t ∷ ts) h = elim (Bool-cases (is_empty (clean t))) [
  | inl e ↦ inr (check_events-Some ts (rw e at h))
  | inr e ↦ inl e
]
