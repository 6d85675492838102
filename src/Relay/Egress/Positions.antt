-- ===== src/Relay/Egress/Positions.antt =====
-- internal/relay/handler.go, egress, with internal/relay/group_cache.go: the loop over the ring.
use qumo.Common.{ℕ, ◌≤◌, ◌≡◌, refl, Option, none, some, ltb, if◌then◌else◌, arith, ◌∙◌}
use qumo.Relay.Cache.{append, mark_complete}
use qumo.Relay.Ring.{get, reserve, decr_ref}
use qumo.Relay.Ring.Steps.{
  System, Step, reserves, gets, appends, completes, drops, Reach, here, later,
}
use qumo.Relay.Drops.{DropDistributor}
use qumo.Relay.Egress.{
  ErrorCodes, DeliverResult, Pickup, Egress, next_position, egress_round, Wake, woken, after_skip,
  delivered, picked_up, at_wait, delivery_stopped, group_timed_out, group_sent, broadcast,
  track_ended, left,
}

Step-arrived :
    {s t : System} (p : ℕ)
    → Step s t
    → p ≤ s.ring.pos
    → (t.arrived p ≡ s.arrived p) × (p ≤ t.ring.pos)
unfolding reserve get append mark_complete decr_ref
Step-arrived p (reserves a seq free room) le = (ground arith, ground arith)
Step-arrived p (gets pos a h room) le = (refl, ground arith)
Step-arrived p (appends a f h) le = (refl, ground arith)
Step-arrived p (completes a h) le = (refl, ground arith)
Step-arrived p (drops a h) le = (refl, ground arith)

pub Reach-arrived :
    {s t : System} (p : ℕ)
    → Reach s t
    → p ≤ s.ring.pos
    → (t.arrived p ≡ s.arrived p) × (p ≤ t.ring.pos)
Reach-arrived p here le = (refl, le)
Reach-arrived p (later r st) le =
    let (a, b) = Reach-arrived p r le in let (c, d) = Step-arrived p st b in (c ∙ a, d)

pub Reach-trans : {r s t : System} → Reach r s → Reach s t → Reach r t
Reach-trans p here = p
Reach-trans p (later q st) = later (Reach-trans p q) st

module _ (codes : ErrorCodes) (src : DropDistributor) where
  after_skip-last : (cache : Pickup) (e : Egress) → (after_skip codes cache e).1.last ≡ e.last
  unfolding after_skip
  after_skip-last cache e = ground arith

  delivered-last :
      (cache : Pickup) (result : DeliverResult) (e : Egress)
      → (delivered codes src cache result e).1.last ≡ e.last
  unfolding delivered
  delivered-last cache delivery_stopped e = refl
  delivered-last cache group_timed_out e = refl
  delivered-last cache group_sent e = refl

  picked_up-last :
      (cache : Pickup) (result : DeliverResult) (e : Egress)
      → (picked_up codes src cache result e).1.last ≡ e.last
  unfolding picked_up
  picked_up-last cache result e =
      ground
        (arith, after_skip-last cache e, delivered-last cache result (after_skip codes cache e).1)

  at_wait-last : (e : Egress) → (at_wait src e).1.last ≡ e.last
  unfolding at_wait
  at_wait-last e = refl

  pub woken-last : (wake : Wake) (e : Egress) → (woken src wake e).1.last ≡ e.last
  unfolding woken
  woken-last broadcast e = refl
  woken-last track_ended e = refl
  woken-last left e = refl

  -- Where a round leaves the position.
  pub egress_round-last :
      (latest earliest : ℕ) (found : Option Pickup) (result : DeliverResult) (e : Egress)
      → (egress_round codes latest earliest found src result e).1.last
        ≡ (if ltb e.last latest then (next_position latest earliest e).last else e.last)
  unfolding egress_round
  egress_round-last latest earliest none result e =
      let e' = next_position latest earliest e in ground (arith, at_wait-last e', at_wait-last e)
  egress_round-last latest earliest (some cache) result e =
      let e' = next_position latest earliest e in
      ground (arith, picked_up-last cache result e', at_wait-last e)
