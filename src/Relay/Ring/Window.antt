-- ===== src/Relay/Ring/Window.antt =====
-- internal/relay/group_cache.go, get, head and earliestAvailable between two operations: the ring against
-- its description, the last `size` groups in the order of their arrival.
use qumo.Common.{ℕ, ◌+◌, ◌%◌, ◌≤◌, ◌<◌, ◌≡◌, ◌↔◌, some, arith}
use qumo.Relay.Cache.{FramePool}
use qumo.Relay.Ring.{GroupRing, head, earliest_available, get}
use qumo.Relay.Ring.Steps.{System, start, Reach}
use qumo.Relay.Ring.Invariant.{Inv}
use qumo.Relay.Ring.Holders.{Reach-Inv}

-- What `get` finds: an address whose cache has the position asked for.
abbrev pub Finds : GroupRing → ℕ → Type 0
Finds r p = (a : ℕ) × ((get p r).0 ≡ some a) × ((r.heap a).pos ≡ p)

module _ (s : System) (v : Inv s) (p : ℕ) where
  pub get-in_window : 0 < p → p ≤ s.ring.pos → s.ring.pos < p + s.ring.size → Finds s.ring p
  unfolding get
  get-in_window pos le near =
      let (a, at, is) = v.full p pos le near in
      (a, ground (arith, v.slot (p % s.ring.size) a at, v.used a), is)

  get-found :
      (a : ℕ)
      → (get p s.ring).0 ≡ some a
      → (0 < p) × (p ≤ s.ring.pos) × (s.ring.pos < p + s.ring.size)
  unfolding get
  get-found a h = ground (arith, v.slot (p % s.ring.size) a)

-- Between two operations, get finds exactly the positions from earliestAvailable up to head.
pub window_between :
    (size : ℕ) (pool : FramePool) (s : System) (p : ℕ)
    → 0 < size
    → Reach (start size pool) s
    → Finds s.ring p ↔ ((earliest_available s.ring ≤ p) × (p ≤ head s.ring))
unfolding earliest_available
window_between size pool s p h r =
    let v = Reach-Inv size pool h r in
    (
      λ found. ground (arith, get-found s v p found.0 found.1, v.sized),
      λ w. get-in_window s v p (ground arith) w.1 (ground (arith, v.sized)),
    )
