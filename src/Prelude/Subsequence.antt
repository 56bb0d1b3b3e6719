-- ===== src/Prelude/Subsequence.antt =====
-- A list that another one gives when some of its elements are left out.
use mathlib.Core.Path.{◌≡◌, subst}
use mathlib.Core.List.{List, [], ◌∷◌, ◌++◌}

pub data Subsequence {ℓ} {A : Type ℓ} : List A → List A → Type ℓ where
  done : Subsequence [] []
  keep : {x : A} {xs ys : List A} → Subsequence xs ys → Subsequence (x ∷ xs) (x ∷ ys)
  skip : {x : A} {xs ys : List A} → Subsequence xs ys → Subsequence xs (x ∷ ys)

module _ {ℓ} {A : Type ℓ} where
  pub Subsequence-refl : (xs : List A) → Subsequence xs xs
  Subsequence-refl [] = done
  Subsequence-refl (x ∷ xs) = keep (Subsequence-refl xs)

  pub Subsequence-trans :
      {ys zs : List A} → Subsequence ys zs → {xs : List A} → Subsequence xs ys → Subsequence xs zs
  Subsequence-trans (skip t) s = skip (Subsequence-trans t s)
  Subsequence-trans done s = s
  Subsequence-trans (keep t) (keep s) = keep (Subsequence-trans t s)
  Subsequence-trans (keep t) (skip s) = skip (Subsequence-trans t s)

  pub Subsequence-of_eq : {xs ys : List A} → xs ≡ ys → Subsequence xs ys
  Subsequence-of_eq {xs} e = subst (λ l. Subsequence xs l) e (Subsequence-refl xs)

  pub Subsequence-append :
      {xs ys us vs : List A}
      → Subsequence xs ys
      → Subsequence us vs
      → Subsequence (xs ++ us) (ys ++ vs)
  Subsequence-append done t = t
  Subsequence-append (keep s) t = keep (Subsequence-append s t)
  Subsequence-append (skip s) t = skip (Subsequence-append s t)

  pub Subsequence-none : (ys : List A) → Subsequence [] ys
  Subsequence-none [] = done
  Subsequence-none (y ∷ ys) = skip (Subsequence-none ys)

  pub Subsequence-extends : (xs ys : List A) → Subsequence xs (xs ++ ys)
  Subsequence-extends [] ys = Subsequence-none ys
  Subsequence-extends (x ∷ xs) ys = keep (Subsequence-extends xs ys)
