-- ===== src/Relay/Ring/Race.antt =====
-- internal/relay/group_cache.go, decrRef: `refCount.Add(-1)` and `evicted.Load()` are two accesses,
-- and nothing keeps get and reserve from going in between.
use qumo.Common.{ℕ, ◌+◌, ◌%◌, ◌^◌, ◌<◌, ◌≡◌, true, some, arith}
use qumo.Relay.Cache.{FramePool}
use qumo.Relay.Ring.{reserve, get, drop_count, release_evicted}
use qumo.Relay.Ring.Steps.{System, start, reserving, getting, reserves, gets, Reach}
use qumo.Relay.Ring.Racing.{
  Racing, counting, releasing, whole, counts, releases, RacingReach, race_here, race_later, quiet,
}
use qumo.Relay.Ring.Holders.{Reach-Inv}

-- Somebody drops the last reference to the cache at `a`, and is held up; a subscriber gets the cache;
-- the ring goes on to the group `seq`, whose cache comes to the address `b`; the first one goes on.
abbrev pub raced : ℕ → ℕ → ℕ → System → Racing
raced a b seq s =
    let s1 = counting a (quiet s) in
    let s2 = record s1 { sys = getting (s.ring.heap a).pos a s1.sys } in
    releasing a (record s2 { sys = reserving b seq s2.sys })

-- From every reachable state in which the oldest group of a full ring has one reference left, an
-- interleaving of decrRef with one get and one reserve ends with the group's cache back in gcPool
-- while a reference to it is held.
pub held-recycled :
    (size : ℕ) (pool : FramePool) (s : System) (a b seq : ℕ)
    → 0 < size
    → Reach (start size pool) s
    → s.ring.caches ((s.ring.pos + 1) % s.ring.size) ≡ some a
    → s.held a ≡ 1
    → s.ring.pooled b ≡ true
    → s.ring.pos + 1 < 2 ^ 64
    → (t : Racing) × RacingReach (quiet s) t × (0 < t.sys.held a) × (t.sys.ring.pooled a ≡ true)
unfolding drop_count release_evicted reserve get
held-recycled size pool s a b seq h r oldest one free room =
    let v = Reach-Inv size pool h r in
    let i = (s.ring.pos + 1) % s.ring.size in
    (
      raced a b seq s,
      race_later
          (race_later
            (race_later (race_later race_here (counts a (ground arith))) (
              whole (
                gets (s.ring.heap a).pos a (ground (arith, v.slot i a oldest, v.used a))
                  (ground arith))))
            (whole (reserves b seq (ground arith) (ground (arith, v.slot i a oldest, v.used a)))))
          (releases a (ground (arith, v.slot i a oldest, v.used a))),
      ground (arith, v.slot i a oldest, v.used a),
      ground (arith, v.slot i a oldest, v.used a),
    )
