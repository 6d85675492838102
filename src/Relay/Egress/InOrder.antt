-- ===== src/Relay/Egress/InOrder.antt =====
-- internal/relay/handler.go, egress, with internal/relay/group_cache.go: what the loop finds in the
-- ring while the others go on.
use qumo.Common.{
  ℕ, ◌+◌, ◌^◌, ◌≤◌, ◌<◌, ◌≡◌, refl, Bool, true, false, Option, none, some, List, [], ◌∷◌, ltb,
  arith, inl, inr, Bool-cases, Option-cases, ◌∙◌, sym,
}
use qumo.Relay.Cache.{FramePool}
use qumo.Relay.Ring.{GroupRing, get, head, earliest_available}
use qumo.Relay.Ring.Steps.{System, start, Reach}
use qumo.Relay.Ring.Holders.{Reach-Inv}
use qumo.Relay.Ring.Readers.{get-arrived}
use qumo.Relay.Drops.{DropDistributor}
use qumo.Relay.Egress.{
  ErrorCodes, DeliverResult, Pickup, Egress, next_position, egress_round, look, Wake, woken,
  new_egress, start_position,
}
use qumo.Relay.Egress.Positions.{Reach-arrived, Reach-trans, egress_round-last, woken-last}

-- A group that a round found, and where.
pub record Pick : Type 0 where
  pub pos : ℕ
  pub cache : Pickup

abbrev pub pick : Bool → ℕ → Option Pickup → List Pick → List Pick
pick true pos (some cache) picks = record { pos = pos; cache = cache } ∷ picks
pick true pos none picks = picks
pick false pos found picks = picks

-- The groups found, the last one first: below `bound`, above `low`, at positions that go down, and
-- each the one that was reserved at its position.
abbrev pub InOrder : System → ℕ → ℕ → List Pick → Type 0
InOrder s low bound [] = Unit
InOrder s low bound (p ∷ ps) =
    (low < p.pos) × (p.pos < bound) × (p.cache.seq ≡ s.arrived p.pos) × InOrder s low p.pos ps

-- One round, with its loads in three states of the ring: the position asked for, the groups found so
-- far, and the loop's variables.
abbrev asks : System → System → Egress → ℕ
asks t u e = (next_position (head t.ring) (earliest_available u.ring) e).last

abbrev pub found_by : System → System → System → Egress → List Pick → List Pick
found_by t u v e picks =
    pick (ltb e.last (head t.ring)) (asks t u e) (look (asks t u e) v.ring) picks

abbrev pub left_by :
    ErrorCodes → System → System → System → DropDistributor → DeliverResult → Egress → Egress
left_by codes t u v src result e =
    (egress_round codes (head t.ring) (earliest_available u.ring) (look (asks t u e) v.ring) src
      result e).1

-- The rounds and the waits of a subscriber's loop, from the state `from` of the ring on, while the
-- others take any steps between the loads.
pub data Follows (codes : ErrorCodes) (from : System) (first : Egress)
    : System → List Pick → Egress → Type 0 where
  follows_start : Follows codes from first from [] first
  follows_round :
      {s : System} {picks : List Pick} {e : Egress}
      → Follows codes from first s picks e
      → (t u v : System) → Reach s t
      → Reach t u
      → Reach u v
      → (src : DropDistributor) (result : DeliverResult)
      → Follows codes from first v (found_by t u v e picks) (left_by codes t u v src result e)
  follows_wake :
      {s : System} {picks : List Pick} {e : Egress}
      → Follows codes from first s picks e
      → (t : System) → Reach s t
      → (src : DropDistributor) (wake : Wake)
      → Follows codes from first t picks (woken src wake e).1

InOrder-later :
    (s t : System) (low bound : ℕ) (ps : List Pick)
    → Reach s t
    → bound ≤ s.ring.pos + 1
    → InOrder s low bound ps
    → InOrder t low bound ps
InOrder-later s t low bound [] r le h = tt
InOrder-later s t low bound (p ∷ ps) r le (a, b, c, d) = (
  a,
  b,
  c ∙ sym (Reach-arrived p.pos r (omega arith)).0,
  InOrder-later s t low p.pos ps r (omega arith) d,
)

InOrder-below :
    (s : System) (low bound more : ℕ) (ps : List Pick)
    → bound ≤ more
    → InOrder s low bound ps
    → InOrder s low more ps
InOrder-below s low bound more [] le h = tt
InOrder-below s low bound more (p ∷ ps) le (a, b, c, d) = (a, omega arith, c, d)

next_position-after :
    (latest earliest : ℕ) (e : Egress)
    → e.last < latest
    → latest < 2 ^ 64
    → (e.last < (next_position latest earliest e).last)
      × ((next_position latest earliest e).last ≤ latest)
unfolding next_position
next_position-after latest earliest e lt small = ground arith

look-arrived :
    (size : ℕ) (pool : FramePool) (s : System) (p : ℕ) (cache : Pickup)
    → 0 < size
    → Reach (start size pool) s
    → look p s.ring ≡ some cache
    → cache.seq ≡ s.arrived p
unfolding look
look-arrived size pool s p cache h r e = elim (Option-cases (get p s.ring).0) [
  | inl n ↦ absurd (ground arith)
  | inr (a, f) ↦ ground (arith, get-arrived size pool s p a h r f)
]

pick-InOrder :
    (s : System) (low last p : ℕ) (found : Option Pickup) (ps : List Pick)
    → InOrder s low (last + 1) ps
    → low ≤ last
    → last < p
    → ((cache : Pickup) → found ≡ some cache → cache.seq ≡ s.arrived p)
    → InOrder s low (p + 1) (pick true p found ps)
pick-InOrder s low last p none ps h le lt f =
    InOrder-below s low (last + 1) (p + 1) ps (omega arith) h
pick-InOrder s low last p (some cache) ps h le lt f =
    (omega arith, omega arith, f cache refl, InOrder-below s low (last + 1) p ps (omega arith) h)

-- What holds of the loop between two rounds.
record IsFollowing (size : ℕ) (pool : FramePool) (low : ℕ) (s : System) (ps : List Pick)
    (e : Egress) : Type 0 where
  reached : Reach (start size pool) s
  behind : e.last ≤ s.ring.pos
  ahead : low ≤ e.last
  in_order : InOrder s low (e.last + 1) ps

module _ (codes : ErrorCodes) (size : ℕ) (pool : FramePool) (sized : 0 < size) where
  round-IsFollowing :
      (low : ℕ) (s t u v : System) (ps : List Pick) (e : Egress) (src : DropDistributor)
      (result : DeliverResult)
      → IsFollowing size pool low s ps e
      → Reach s t
      → Reach t u
      → Reach u v
      → IsFollowing size pool low v (found_by t u v e ps) (left_by codes t u v src result e)
  round-IsFollowing low s t u v ps e src result q st tu uv =
      let to_t = Reach-trans q.reached st in
      let tv = Reach-trans tu uv in
      let to_v = Reach-trans to_t tv in
      let moved = (Reach-arrived e.last (Reach-trans st tv) q.behind).1 in
      let rest =
        InOrder-later s v low (e.last + 1) ps (Reach-trans st tv) (let b = q.behind in omega arith)
          q.in_order in
      let at =
        egress_round-last codes src (head t.ring) (earliest_available u.ring)
          (look (asks t u e) v.ring) result e in
      elim (Bool-cases (ltb e.last (head t.ring))) [
        | inl b ↦
            let (after, upto) =
              next_position-after (head t.ring) (earliest_available u.ring) e (ground arith)
                (Reach-Inv size pool sized to_t).bounded in
            let within = (Reach-arrived t.ring.pos tv (omega arith)).1 in
            let same : (left_by codes t u v src result e).last ≡ asks t u e = ground arith in
            let new =
              pick-InOrder v low e.last (asks t u e) (look (asks t u e) v.ring) ps rest q.ahead
                after (λ cache. look-arrived size pool v (asks t u e) cache sized to_v) in
            record {
              reached = to_v;
              behind = ground arith;
              ahead = let a = q.ahead in ground arith;
              in_order = rw (b, same) new;
            }
        | inr b ↦
            let same : (left_by codes t u v src result e).last ≡ e.last = ground arith in
            record {
              reached = to_v;
              behind = ground arith;
              ahead = let a = q.ahead in ground arith;
              in_order = rw (b, same) rest;
            }
      ]

  start_position-le :
      (from_start : Bool) (ring : GroupRing) → start_position from_start ring ≤ head ring
  unfolding start_position earliest_available
  start_position-le from_start ring = ground arith

  Follows-IsFollowing :
      (from : System) (first : Egress) {s : System} {ps : List Pick} {e : Egress}
      → Reach (start size pool) from
      → first.last ≤ head from.ring
      → Follows codes from first s ps e
      → IsFollowing size pool first.last s ps e
  Follows-IsFollowing from first r le follows_start = record {
    reached = r;
    behind = le;
    ahead = omega arith;
    in_order = tt;
  }
  Follows-IsFollowing from first r le
        (follows_round {s} {picks} {e} run t u v st tu uv src result) =
      round-IsFollowing first.last s t u v picks e src result
        (Follows-IsFollowing from first r le run) st tu uv
  Follows-IsFollowing from first r le (follows_wake {s} {picks} {e} run t st src wake) =
      let q = Follows-IsFollowing from first r le run in
      let same = woken-last codes src wake e in
      record {
        reached = Reach-trans q.reached st;
        behind = rw same (Reach-arrived e.last st q.behind).1;
        ahead = rw same q.ahead;
        in_order = rw same (
            InOrder-later s t first.last (e.last + 1) picks st (let b = q.behind in omega arith)
              q.in_order);
      }

-- A subscriber whose loop begins in a reachable state of the ring finds groups at positions that
-- strictly increase, from the start position on and up to where the loop stands, and each is the
-- group that was reserved at its position, whatever whole operations others do to the ring between any
-- two loads.
pub finds-InOrder :
    (codes : ErrorCodes) (size : ℕ) (pool : FramePool) (from : System) (from_start : Bool)
    (src : DropDistributor) (s : System) (picks : List Pick) (e : Egress)
    → 0 < size
    → Reach (start size pool) from
    → Follows codes from (new_egress from_start from.ring src) s picks e
    → InOrder s (start_position from_start from.ring) (e.last + 1) picks
unfolding new_egress
finds-InOrder codes size pool from from_start src s picks e sized r run =
    let le = start_position-le codes size pool sized from_start from.ring in
    let q =
      Follows-IsFollowing codes size pool sized from (new_egress from_start from.ring src) r le
        run in
    q.in_order
