-- ===== src/Bridge/Leg/Queue.antt =====
-- A send that drops on a full channel, as each producer of session.go makes it.
use sipgate_sip_stream_bridg.Prelude.{ℕ, List, [], ◌∷◌, ◌++◌, ltb, if◌then◌else◌, length}

module _ {ℓ} {A : Type ℓ} where
  -- `select { case q <- a: default: }` on a channel of `size` places.
  unfoldable pub offer : ℕ → A → List A → List A
  offer size a q = if ltb (length q) size then q ++ a ∷ [] else q
