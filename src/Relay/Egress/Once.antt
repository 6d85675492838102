-- ===== src/Relay/Egress/Once.antt =====
-- internal/relay/handler.go, egress: the whole run of a subscriber's loop.
use qumo.Common.{ℕ, ◌≤◌, ◌≡◌, Bool, Option, some, List, [], ◌++◌, arith}
use qumo.Relay.Ring.{GroupRing}
use qumo.Relay.Drops.{DropDistributor, new_drop_reporter}
use qumo.Relay.Drops.Tells.{Tells-none}
use qumo.Relay.Egress.{
  ErrorCodes, DeliverResult, Given, Pickup, Egress, new_egress, egress_round, Wake, woken,
}
use qumo.Relay.Egress.Times.{times, Gives, Gives-then, SmallDrops, IsPickup}
use qumo.Relay.Egress.Rounds.{egress_round-Gives, woken-Gives}

-- The rounds and the waits of one subscriber, with anything for what the loads return, and what the
-- subscriber is given all in all. Groups have a sequence and drops an end that is not the last uint64.
pub data Run (codes : ErrorCodes) (first : Egress) : List Given → Egress → Type 0 where
  begins : Run codes first [] first
  rounds :
      {gs : List Given} {e : Egress}
      → Run codes first gs e
      → (latest earliest : ℕ) (found : Option Pickup) (src : DropDistributor)
        (result : DeliverResult)
      → ((cache : Pickup) → found ≡ some cache → IsPickup cache)
      → SmallDrops src
      → Run codes first
          (gs ++ (egress_round codes latest earliest found src result e).0)
          (egress_round codes latest earliest found src result e).1
  wakes :
      {gs : List Given} {e : Egress}
      → Run codes first gs e
      → (src : DropDistributor) (wake : Wake) → SmallDrops src
      → Run codes first (gs ++ (woken src wake e).0) (woken src wake e).1

module _ (codes : ErrorCodes) (from_start : Bool) (ring : GroupRing) (src : DropDistributor) where
  new_egress-Gives : (g : ℕ) → Gives g (new_drop_reporter src) [] (new_egress from_start ring src)
  unfolding new_egress new_drop_reporter
  new_egress-Gives g =
      (Tells-none g (new_drop_reporter src), record { apart = tt; short = omega arith })

  Run-Gives :
      (g : ℕ) (gs : List Given) (e : Egress)
      → Run codes (new_egress from_start ring src) gs e
      → Gives g (new_drop_reporter src) gs e
  Run-Gives g gs e begins = new_egress-Gives g
  Run-Gives g gs e (rounds {gs = before} {e = e'} run latest earliest found now result p small) =
      let (a, v) = Run-Gives g before e' run in
      Gives-then g (new_drop_reporter src) before
        (egress_round codes latest earliest found now result e').0 e'
        (egress_round codes latest earliest found now result e').1 (a, v)
        (egress_round-Gives codes g now small latest earliest found result e' v p)
  Run-Gives g gs e (wakes {gs = before} {e = e'} run now wake small) =
      let (a, v) = Run-Gives g before e' run in
      Gives-then g (new_drop_reporter src) before (woken now wake e').0 e' (woken now wake e').1
        (a, v) (woken-Gives codes g now small wake e' v)

-- Whatever the loads of its rounds return, and however its deliveries end, a subscriber is given each
-- group once at most: sent whole, or named by one SUBSCRIBE_DROP, and never both.
pub given_once :
    (codes : ErrorCodes) (from_start : Bool) (ring : GroupRing) (src : DropDistributor) (g : ℕ)
    (gs : List Given) (e : Egress)
    → Run codes (new_egress from_start ring src) gs e
    → times g gs ≤ 1
given_once codes from_start ring src g gs e run =
    (Run-Gives codes from_start ring src g gs e run).0.at_most
