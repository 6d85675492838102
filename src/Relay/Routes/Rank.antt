-- ===== src/Relay/Routes/Rank.antt =====
-- internal/relay/handler.go, compareRoutes: the order of routes behind the thresholds.
use qumo.Common.{◌<◌, ◌≡◌, true, false, inl, inr, Bool-cases, arith, ltb}
use qumo.Relay.Routes.{RouteStats, accepted, compare_routes}

-- The first route is better: alive where the other is not, or else of fewer hops, of the same hops
-- and a higher bitrate, or of the same hops and bitrate and a shorter round trip.
pub data Better (c d : RouteStats) : Type 0 where
  of_alive : c.alive ≡ true → d.alive ≡ false → Better c d
  of_hops : c.alive ≡ true → d.alive ≡ true → c.hops < d.hops → Better c d
  of_bitrate :
      c.alive ≡ true
      → d.alive ≡ true
      → c.hops ≡ d.hops
      → d.estimated_bitrate < c.estimated_bitrate
      → Better c d
  of_rtt :
      c.alive ≡ true
      → d.alive ≡ true
      → c.hops ≡ d.hops
      → d.estimated_bitrate ≡ c.estimated_bitrate
      → c.rtt < d.rtt
      → Better c d

accepted-Better : (c d : RouteStats) → accepted (compare_routes c d) ≡ true → Better c d
unfolding accepted compare_routes
accepted-Better c d h = elim (Bool-cases c.alive) [
  | inr a ↦ absurd (ground arith)
  | inl a ↦ elim (Bool-cases d.alive) [
    | inr b ↦ of_alive a b
    | inl b ↦ elim (Bool-cases (ltb c.hops d.hops)) [
      | inl e ↦ of_hops a b (ground arith)
      | inr e ↦ elim (Bool-cases (ltb d.estimated_bitrate c.estimated_bitrate)) [
        | inl f ↦ of_bitrate a b (ground arith) (ground arith)
        | inr f ↦ of_rtt a b (ground arith) (ground arith) (ground arith)
      ]
    ]
  ]
]

Better-irrefl : (c : RouteStats) → Better c c → ⊥
Better-irrefl c (of_alive a b) = cc
Better-irrefl c (of_hops a b h) = omega arith
Better-irrefl c (of_bitrate a b e h) = omega arith
Better-irrefl c (of_rtt a b e f h) = omega arith

Better-trans : (c d e : RouteStats) → Better c d → Better d e → Better c e
Better-trans c d e (of_alive a b) (of_alive a' b') = absurd cc
Better-trans c d e (of_alive a b) (of_hops a' b' h) = absurd cc
Better-trans c d e (of_alive a b) (of_bitrate a' b' i h) = absurd cc
Better-trans c d e (of_alive a b) (of_rtt a' b' i j h) = absurd cc
Better-trans c d e (of_hops a b h) (of_alive a' b') = of_alive a b'
Better-trans c d e (of_bitrate a b i h) (of_alive a' b') = of_alive a b'
Better-trans c d e (of_rtt a b i j h) (of_alive a' b') = of_alive a b'
Better-trans c d e (of_hops a b h) (of_hops a' b' h') = of_hops a b' (omega arith)
Better-trans c d e (of_hops a b h) (of_bitrate a' b' i' h') = of_hops a b' (omega arith)
Better-trans c d e (of_hops a b h) (of_rtt a' b' i' j' h') = of_hops a b' (omega arith)
Better-trans c d e (of_bitrate a b i h) (of_hops a' b' h') = of_hops a b' (omega arith)
Better-trans c d e (of_rtt a b i j h) (of_hops a' b' h') = of_hops a b' (omega arith)
Better-trans c d e (of_bitrate a b i h) (of_bitrate a' b' i' h') =
    of_bitrate a b' (omega arith) (omega arith)
Better-trans c d e (of_bitrate a b i h) (of_rtt a' b' i' j' h') =
    of_bitrate a b' (omega arith) (omega arith)
Better-trans c d e (of_rtt a b i j h) (of_bitrate a' b' i' h') =
    of_bitrate a b' (omega arith) (omega arith)
Better-trans c d e (of_rtt a b i j h) (of_rtt a' b' i' j' h') =
    of_rtt a b' (omega arith) (omega arith) (omega arith)

-- A chain of routes from `first`, each accepted against the one before it, which has the measurements
-- that it was itself accepted with.
pub data Displaced (first : RouteStats) : RouteStats → Type 0 where
  once : {c : RouteStats} → accepted (compare_routes c first) ≡ true → Displaced first c
  again :
      {c d : RouteStats}
      → Displaced first d
      → accepted (compare_routes c d) ≡ true
      → Displaced first c

Displaced-Better : {first c : RouteStats} → Displaced first c → Better c first
Displaced-Better {first} {c} (once h) = accepted-Better c first h
Displaced-Better {first} {c} (again {d = d} run h) =
    Better-trans c d first (accepted-Better c d h) (Displaced-Better run)

-- As long as measurements stay as they were: after any chain of routes, each of which was accepted
-- against the one before it, the first is not accepted against the last with the measurements that both
-- were compared with in the chain. Routes that are measured anew may be compared otherwise.
pub replaced_for_good :
    (first c : RouteStats) → Displaced first c → accepted (compare_routes first c) ≡ false
replaced_for_good first c run = elim (Bool-cases (accepted (compare_routes first c))) [
  | inl h ↦
      absurd (
        Better-irrefl c (Better-trans c first c (Displaced-Better run) (accepted-Better first c h)))
  | inr h ↦ h
]
