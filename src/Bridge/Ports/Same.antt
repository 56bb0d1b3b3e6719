-- ===== src/Bridge/Ports/Same.antt =====
-- go/internal/bridge/manager.go, PortPool: a port that is taken and given back.
use sipgate_sip_stream_bridg.Prelude.{
  ℕ, ◌≤◌, ◌≡◌, refl, ap, ◌∙◌, none, some, List, [], ◌∷◌, arith, length, length-append,
}
use sipgate_sip_stream_bridg.Bridge.Ports.{PortPool, acquire, release}
use sipgate_sip_stream_bridg.Bridge.Ports.Conservation.{
  count, count-append, acquire-some, release_room,
}

-- The same ports, each as often as before, in a pool of the same capacity.
pub record SamePorts (p q : PortPool) : Type 0 where
  pub ports : (port : ℕ) → count port q.ports ≡ count port p.ports
  pub size : length q.ports ≡ length p.ports
  pub capacity : q.capacity ≡ p.capacity

pub SamePorts-refl : (p : PortPool) → SamePorts p p
SamePorts-refl p = record { ports = λ port. refl; size = refl; capacity = refl }

-- A port that is taken and given back.
pub acquire_release-SamePorts :
    (p : PortPool) (port : ℕ)
    → length p.ports ≤ p.capacity
    → (acquire p).1 ≡ some port
    → SamePorts p (release port (acquire p).0)
acquire_release-SamePorts p port room taken =
    let (listed, same) = acquire-some p port taken in
    let long = ap (λ (l : List ℕ). length l) listed in
    let (back, kept) = release_room (acquire p).0 port (omega arith) in
    record {
      ports = λ q. omega (
        arith,
        ap (count q) listed,
        ap (count q) back,
        count-append q (acquire p).0.ports (port ∷ []),
      );
      size = omega (
        arith,
        ap (λ (l : List ℕ). length l) back,
        length-append (acquire p).0.ports (port ∷ []),
      );
      capacity = kept ∙ same;
    }

pub acquire-none : (p q : PortPool) → acquire p ≡ (q, none) → p ≡ q
unfolding acquire
acquire-none p q e = ground arith
