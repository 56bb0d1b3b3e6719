-- ===== src/Prelude/Dict.antt =====
-- Go's maps with string keys, `sync.Map` included, as association lists without repeated keys.
-- The program ranges over a map only to count, to filter or before a sort, so that the order of
-- the entries carries no meaning.
use Prim.Native.String.{String}
use mathlib.Core.Path.{◌≡◌, refl}
use mathlib.Core.Option.{Option, none, some}
use mathlib.Core.List.{List, [], ◌∷◌}
use native.Mathlib.Omega.{arith}
use sipgate_sip_stream_bridg.Prelude.Tests.{str_eq, str_eq_iff, str_eq_refl, if◌then◌else◌}

abbrev pub Dict {ℓ} : Type ℓ → Type ℓ
Dict V = List (String × V)

module _ {ℓ} {V : Type ℓ} where
  -- m.Load(k)
  unfoldable pub load : String → Dict V → Option V
  load k [] = none
  load k ((j, v) ∷ m) = if str_eq j k then some v else load k m

  -- m.Store(k, v)
  unfoldable pub store : String → V → Dict V → Dict V
  store k v [] = (k, v) ∷ []
  store k v ((j, w) ∷ m) = if str_eq j k then (k, v) ∷ m else (j, w) ∷ store k v m

  -- m.Delete(k)
  unfoldable pub delete : String → Dict V → Dict V
  delete k [] = []
  delete k ((j, w) ∷ m) = let rest = delete k m in if str_eq j k then rest else (j, w) ∷ rest

  pub load-store :
      (k j : String) (v : V) (m : Dict V)
      → load j (store k v m) ≡ (if str_eq k j then some v else load j m)
  unfolding load store
  load-store k j v [] = refl
  load-store k j v ((i, w) ∷ m) =
      ground (arith, str_eq_iff k j, str_eq_iff i k, str_eq_iff i j, load-store k j v m)

  pub load-delete :
      (k j : String) (m : Dict V) → load j (delete k m) ≡ (if str_eq k j then none else load j m)
  unfolding load delete
  load-delete k j [] = ground arith
  load-delete k j ((i, w) ∷ m) =
      ground (arith, str_eq_iff k j, str_eq_iff i k, str_eq_iff i j, load-delete k j m)

  pub load-store_self : (k : String) (v : V) (m : Dict V) → load k (store k v m) ≡ some v
  load-store_self k v m = ground (arith, load-store k k v m, str_eq_refl k)

  pub load-delete_self : (k : String) (m : Dict V) → load k (delete k m) ≡ none
  load-delete_self k m = ground (arith, load-delete k k m, str_eq_refl k)

pub ruleset dict_laws = (load-store, load-delete, load-store_self, load-delete_self)
