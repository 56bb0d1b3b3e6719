-- ===== src/Bridge/Ports/Examples.antt =====
-- Tests of the port pool of go/internal/bridge/manager.go.
use sipgate_sip_stream_bridg.Prelude.{
  ℕ, ◌+◌, ◌≤◌, ◌<◌, ◌≡◌, refl, some, [], ◌∷◌, ltb, leb, if◌then◌else◌,
}
use sipgate_sip_stream_bridg.Bridge.Ports.{PortPool, range_from, new_port_pool, acquire}
use sipgate_sip_stream_bridg.Bridge.Ports.Conservation.{
  count, Rental, take_port, Uses, here, next, ports_conserved,
}

abbrev two_ports : PortPool
two_ports = record { ports = 10000 ∷ 10001 ∷ []; capacity = 2 }

abbrev one_out : Rental
one_out = record { pool = record { ports = 10001 ∷ []; capacity = 2 }; held = 10000 ∷ [] }

two_ports_new : new_port_pool 10000 10002 ≡ some two_ports
unfolding new_port_pool range_from
two_ports_new = refl

take_first : Uses (record { pool = two_ports; held = [] }) one_out
unfolding acquire
take_first = next here (take_port (record { pool = two_ports; held = [] }) 10000 refl)

ports_conserved_example :
    ((p : ℕ)
      → count p (10001 ∷ []) + count p (10000 ∷ [])
        ≡ (if leb 10000 p then (if ltb p 10002 then 1 else 0) else 0))
    × ((port : ℕ)
        → (acquire one_out.pool).1 ≡ some port
        → (count port (10000 ∷ []) ≡ 0) × (10000 ≤ port) × (port < 10002))
ports_conserved_example = ports_conserved 10000 10002 two_ports_new take_first
