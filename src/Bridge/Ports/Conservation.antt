-- ===== src/Bridge/Ports/Conservation.antt =====
-- Ports are neither lost nor given out twice, as long as callers release what they hold.
use sipgate_sip_stream_bridg.Prelude.{
  ℕ, zero, suc, ◌+◌, ◌-◌, ◌≤◌, ◌<◌, ◌≡◌, refl, some, List, [], ◌∷◌, ◌++◌, arith, ltb, leb, ◌==◌,
  if◌then◌else◌, length, length-append, ap,
}
use sipgate_sip_stream_bridg.Bridge.Ports.{PortPool, range_from, new_port_pool, acquire, release}

-- How often a port is in a list.
abbrev pub count : ℕ → List ℕ → ℕ
count p [] = 0
count p (q ∷ ps) = (if q == p then 1 else 0) + count p ps

pub count-append : (p : ℕ) (xs ys : List ℕ) → count p (xs ++ ys) ≡ count p xs + count p ys
count-append p [] ys = omega arith
count-append p (x ∷ xs) ys = omega (arith, count-append p xs ys)

-- The first occurrence goes.
abbrev pub without : ℕ → List ℕ → List ℕ
without p [] = []
without p (q ∷ ps) = if q == p then ps else q ∷ without p ps

count-without :
    (p q : ℕ) (ps : List ℕ)
    → 0 < count p ps
    → count q (without p ps) + (if p == q then 1 else 0) ≡ count q ps
count-without p q [] h = absurd (omega arith)
count-without p q (x ∷ ps) h = ground (arith, count-without p q ps)

length-without : (p : ℕ) (ps : List ℕ) → 0 < count p ps → length (without p ps) + 1 ≡ length ps
length-without p [] h = absurd (omega arith)
length-without p (x ∷ ps) h = ground (arith, length-without p ps)

-- The pool with the ports that are out, and the two calls as a caller makes them: what Acquire
-- returns is held, and only a held port is released.
pub record Rental : Type 0 where
  pub pool : PortPool
  pub held : List ℕ

pub data Use : Rental → Rental → Type 0 where
  take_port :
      (r : Rental) (port : ℕ)
      → (acquire r.pool).1 ≡ some port
      → Use r (record { pool = (acquire r.pool).0; held = port ∷ r.held })
  give_back :
      (r : Rental) (port : ℕ)
      → 0 < count port r.held
      → Use r (record { pool = release port r.pool; held = without port r.held })

pub data Uses (r : Rental) : Rental → Type 0 where
  here : Uses r r
  next : {s t : Rental} → Uses r s → Use s t → Uses r t

-- Every port of the range is in the pool or out, once; nothing else is.
pub record IsConserved (min max : ℕ) (r : Rental) : Type 0 where
  pub once :
      (p : ℕ)
      → count p r.pool.ports + count p r.held
        ≡ (if leb min p then (if ltb p max then 1 else 0) else 0)
  pub full : length r.pool.ports + length r.held ≡ r.pool.capacity

pub acquire-some :
    (pool : PortPool) (port : ℕ)
    → (acquire pool).1 ≡ some port
    → (pool.ports ≡ port ∷ (acquire pool).0.ports) × ((acquire pool).0.capacity ≡ pool.capacity)
unfolding acquire
acquire-some pool port h = ground arith

pub release_room :
    (pool : PortPool) (port : ℕ)
    → length pool.ports < pool.capacity
    → ((release port pool).ports ≡ pool.ports ++ port ∷ [])
      × ((release port pool).capacity ≡ pool.capacity)
unfolding release
release_room pool port h = ground arith

Use-once :
    (min max : ℕ) {r s : Rental}
    → Use r s
    → IsConserved min max r
    → (p : ℕ)
    → count p s.pool.ports + count p s.held
      ≡ (if leb min p then (if ltb p max then 1 else 0) else 0)
Use-once min max (take_port r port e) h p =
    omega (arith, ap (count p) (acquire-some r.pool port e).0, h.once p)
Use-once min max (give_back r port e) h p =
    let room = release_room r.pool port (omega (arith, length-without port r.held e, h.full)) in
    omega (
      arith,
      ap (count p) room.0,
      count-append p r.pool.ports (port ∷ []),
      count-without port p r.held e,
      h.once p,
    )

Use-full :
    (min max : ℕ) {r s : Rental}
    → Use r s
    → IsConserved min max r
    → length s.pool.ports + length s.held ≡ s.pool.capacity
Use-full min max (take_port r port e) h =
    let (listed, same) = acquire-some r.pool port e in
    omega (arith, ap (λ (l : List ℕ). length l) listed, same, h.full)
Use-full min max (give_back r port e) h =
    let w = length-without port r.held e in
    let room = release_room r.pool port (omega (arith, w, h.full)) in
    omega (
      arith,
      w,
      ap (λ (l : List ℕ). length l) room.0,
      room.1,
      length-append r.pool.ports (port ∷ []),
      h.full,
    )

Uses-IsConserved :
    (min max : ℕ) {r s : Rental} → IsConserved min max r → Uses r s → IsConserved min max s
Uses-IsConserved min max h here = h
Uses-IsConserved min max h (next us u) =
    let k = Uses-IsConserved min max h us in
    record { once = Use-once min max u k; full = Use-full min max u k }

count-range_from :
    (min n p : ℕ)
    → count p (range_from min n) ≡ (if leb min p then (if ltb p (min + n) then 1 else 0) else 0)
unfolding range_from
count-range_from min zero p = ground arith
count-range_from min (suc n) p = ground (arith, count-range_from (suc min) n p)

length-range_from : (min n : ℕ) → length (range_from min n) ≡ n
unfolding range_from
length-range_from min zero = refl
length-range_from min (suc n) = ap suc (length-range_from (suc min) n)

new_port_pool-some :
    (min max : ℕ) {pool : PortPool}
    → new_port_pool min max ≡ some pool
    → (min < max) × (pool.ports ≡ range_from min (max - min)) × (pool.capacity ≡ max - min)
unfolding new_port_pool
new_port_pool-some min max h = ground arith

new_port_pool-IsConserved :
    (min max : ℕ) {pool : PortPool}
    → new_port_pool min max ≡ some pool
    → IsConserved min max (record { pool = pool; held = [] })
new_port_pool-IsConserved min max h =
    let (below, listed, room) = new_port_pool-some min max h in
    record {
      once = λ p. ground (arith, ap (count p) listed, count-range_from min (max - min) p);
      full =
          omega
            (arith, ap (λ (l : List ℕ). length l) listed, length-range_from min (max - min), room);
    }

-- Callers that release only what they hold never lose a port and are never given one that is out:
-- after any calls on a new pool each port of [min, max) is in the pool or held, exactly once, every
-- other port is neither, and the next port that is acquired is one that nobody holds.
pub ports_conserved :
    (min max : ℕ) {pool : PortPool} {r : Rental}
    → new_port_pool min max ≡ some pool
    → Uses (record { pool = pool; held = [] }) r
    → ((p : ℕ)
        → count p r.pool.ports + count p r.held
          ≡ (if leb min p then (if ltb p max then 1 else 0) else 0))
      × ((port : ℕ)
          → (acquire r.pool).1 ≡ some port
          → (count port r.held ≡ 0) × (min ≤ port) × (port < max))
ports_conserved min max {r = r} e us =
    let k = Uses-IsConserved min max (new_port_pool-IsConserved min max e) us in
    (
      k.once,
      λ port taken. ground (arith, k.once port, ap (count port) (acquire-some r.pool port taken).0),
    )

-- While two places of the pool are free, a port that is released twice stands in the pool two times
-- more than before: the second release is not dropped.
release_twice :
    (port : ℕ) (pool : PortPool)
    → length pool.ports + 2 ≤ pool.capacity
    → count port (release port (release port pool)).ports ≡ count port pool.ports + 2
release_twice port pool h =
    let one = release port pool in
    let (first, same) = release_room pool port (omega arith) in
    let grown = ap (λ (l : List ℕ). length l) first in
    let (second, _) =
      release_room one port (omega (arith, grown, same, length-append pool.ports (port ∷ []))) in
    ground (
      arith,
      ap (count port) first,
      ap (count port) second,
      count-append port pool.ports (port ∷ []),
      count-append port one.ports (port ∷ []),
    )
