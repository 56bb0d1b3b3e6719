-- ===== src/Bridge/Ports.antt =====
-- go/internal/bridge/manager.go, PortPool: the RTP ports as a buffered channel. The channel is the
-- list of the ports in it, the oldest first, and its capacity.
pub mod Conservation
pub mod Same
pub mod Examples
use sipgate_sip_stream_bridg.Prelude.{
  ℕ, zero, suc, ◌+◌, ◌-◌, ◌<◌, Option, none, some, List, [], ◌∷◌, ◌++◌, ltb, leb, if◌then◌else◌,
  length,
}

pub record PortPool : Type 0 where
  pub ports : List ℕ
  pub capacity : ℕ

-- The ports [min, min + n).
pub range_from : ℕ → ℕ → List ℕ
range_from min zero = []
range_from min (suc n) = min ∷ range_from (suc min) n

-- `none` is the error of an empty range.
unfoldable pub new_port_pool : ℕ → ℕ → Option PortPool
unfolding range_from
new_port_pool min max =
    if leb max min
    then none
    else some (record { ports = range_from min (max - min); capacity = max - min })

-- `none` is the error of an exhausted pool. A receive takes the oldest port.
unfoldable pub acquire : PortPool → PortPool × Option ℕ
acquire p = elim p.ports [ [] ↦ (p, none) | port ∷ rest ↦ (record p { ports = rest }, some port) ]

-- A send on a full channel takes the default branch, and the port is dropped.
unfoldable pub release : ℕ → PortPool → PortPool
release port p =
    if ltb (length p.ports) p.capacity then record p { ports = p.ports ++ port ∷ [] } else p
