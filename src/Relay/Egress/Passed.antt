-- ===== src/Relay/Egress/Passed.antt =====
-- internal/relay/handler.go, egress: the newest group, whose position reserve has made public and which
-- it has not yet put in the array.
use qumo.Common.{
  ℕ, ◌+◌, ◌%◌, ◌^◌, ◌<◌, ◌≡◌, some, none, [], arith, subst, sym, inl, inr, Option-cases,
}
use qumo.Relay.Cache.{FramePool}
use qumo.Relay.Ring.{get, head, earliest_available, reserve}
use qumo.Relay.Ring.Steps.{System, start, reserving, reserves, later}
use qumo.Relay.Ring.Holders.{Reach-Inv}
use qumo.Relay.Ring.Window.{Finds, get-in_window}
use qumo.Relay.Ring.Advance.{
  Reserver, ReserverReach, idle, placed, get_window, reach-Placed, Placed,
}
use qumo.Relay.Drops.{DropDistributor}
use qumo.Relay.Egress.{ErrorCodes, DeliverResult, Egress, waits, next_position, egress_round, look}
use qumo.Relay.Egress.Missed.{found_at, at_wait_quiet}

reserving-pos : (a seq : ℕ) (s : System) → (reserving a seq s).ring.pos ≡ (s.ring.pos + 1) % 2 ^ 64
unfolding reserve
reserving-pos a seq s = ground arith

-- Once the group is in the array, get finds it at head.
placed-Finds :
    (size : ℕ) (pool : FramePool) (s : System) (a seq : ℕ)
    → 0 < size
    → Placed size pool (some (a, seq)) s
    → Finds (placed a seq s).ring (head s.ring)
unfolding reserve
placed-Finds size pool s a seq sized (base, r, free, room, e) =
    let v = Reach-Inv size pool sized (later r (reserves a seq free room)) in
    let now = reserving-pos a seq base in
    let some_room = v.sized in
    subst (λ (x : System). Finds (placed a seq x).ring (head x.ring)) (sym e)
      (get-in_window (reserving a seq base) v ((base.ring.pos + 1) % 2 ^ 64) (omega arith)
        (omega arith) (omega arith))

-- What is known of the position and the size.
in_flight_bounds :
    (size : ℕ) (pool : FramePool) (s : System) (a seq : ℕ)
    → 0 < size
    → Placed size pool (some (a, seq)) s
    → (head s.ring < 2 ^ 64) × (0 < s.ring.size)
in_flight_bounds size pool s a seq sized (base, r, free, room, e) =
    let v = Reach-Inv size pool sized r in
    subst (λ (x : System). (head x.ring < 2 ^ 64) × (0 < x.ring.size)) (sym e)
      (omega arith, v.sized)

in_flight_missing :
    (size : ℕ) (pool : FramePool) (s : Reserver) (a seq p : ℕ)
    → 0 < size
    → ReserverReach (idle (start size pool)) s
    → s.placing ≡ some (a, seq)
    → p ≡ head s.sys.ring
    → look p s.sys.ring ≡ none
unfolding look
in_flight_missing size pool s a seq p sized r placing here =
    elim (Option-cases (get p s.sys.ring).0) [
      | inl n ↦ ground arith
      | inr (b, e) ↦
          let w = (get_window size pool s p sized r).1 a seq placing in
          let (pos, near, lt) = w.0 (b, e, found_at s.sys p b e) in absurd (omega arith)
    ]

-- In a reachable state in which reserve has made the position of a group public and not yet put it in
-- the array, a subscriber whose next position is that one and that has no drops to be told: its round
-- gives it nothing, moves past that position and does not note that a group was skipped, although get
-- finds the group there as soon as reserve has put it in the array.
pub newest_passed :
    (codes : ErrorCodes) (size : ℕ) (pool : FramePool) (s : Reserver) (a seq : ℕ)
    (src : DropDistributor) (result : DeliverResult) (e : Egress)
    → 0 < size
    → ReserverReach (idle (start size pool)) s
    → s.placing ≡ some (a, seq)
    → e.last + 1 ≡ head s.sys.ring
    → src.pos ≡ e.drops.pos
    → (egress_round codes
          (head s.sys.ring)
          (earliest_available s.sys.ring)
          (look (e.last + 1) s.sys.ring)
          src
          result
          e
        ≡ ([], record e { last = e.last + 1 }, waits))
      × Finds (placed a seq s.sys).ring (e.last + 1)
unfolding egress_round next_position earliest_available
newest_passed codes size pool s a seq src result e sized r placing next quiet =
    let v = subst (λ o. Placed size pool o s.sys) placing (reach-Placed size pool s r) in
    let missing : look (e.last + 1) s.sys.ring ≡ none =
      in_flight_missing size pool s a seq (e.last + 1) sized r placing next in
    let (room, some_size) = in_flight_bounds size pool s.sys a seq sized v in
    let moved : Egress = record e { last = e.last + 1 } in
    let wait = at_wait_quiet src moved quiet in
    (
      ground arith,
      subst (λ p. Finds (placed a seq s.sys).ring p) (sym next)
          (placed-Finds size pool s.sys a seq sized v),
    )
