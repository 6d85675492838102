-- ===== src/Relay/Egress/Examples.antt =====
-- internal/relay/handler.go and internal/relay/drop_reporter.go: concrete runs, and the theorems at
-- concrete inputs.
use qumo.Common.{ℕ, ◌+◌, ◌-◌, ◌≤◌, ◌≡◌, refl, true, false, some, List, [], ◌∷◌, ◌++◌, arith}
use qumo.Relay.Cache.{FramePool}
use qumo.Relay.Ring.{new_group_ring, reserve, head, earliest_available}
use qumo.Relay.Ring.Steps.{System, start, reserving, reserves, Reach, here, later}
use qumo.Relay.Ring.Window.{Finds}
use qumo.Relay.Drops.{
  SubscribeDrop, DropDistributor, new_drop_distributor, new_drop_reporter, record_drop, since,
  unhandled_from, within_cap, put_span, is_handled,
}
use qumo.Relay.Drops.Tells.{names, IsReporter}
use qumo.Relay.Drops.Since.{Records, nothing_yet, records, listed, since-recent}
use qumo.Relay.Drops.Ledger.{Ledger}
use qumo.Relay.Drops.Refines.{Op, sends, reports, skips, run, replay, RunsIn, Refines, run-Refines}
use qumo.Relay.Egress.{
  ErrorCodes, Given, group, group_sent, Egress, new_egress, start_position, look, next_position,
  egress_round, waits, After, Pickup,
}
use qumo.Relay.Egress.Times.{times, SmallDrops, IsPickup}
use qumo.Relay.Egress.Once.{begins, rounds, given_once}
use qumo.Relay.Egress.InOrder.{
  follows_start, follows_round, InOrder, finds-InOrder, found_by, left_by,
}
use qumo.Relay.Ring.Advance.{
  Reserver, advancing, advances, idle, reserver_here, reserver_later, placed,
}
use qumo.Relay.Egress.Passed.{newest_passed}

abbrev codes : ErrorCodes
codes = record { internal = 0; timeout = 1 }

abbrev pool : FramePool
pool = record { capacity = 1500; taken = 0 }

-- A ring of one slot with the group 5.
abbrev one_group : System
one_group = reserving 7 5 (start 1 pool)

one_group-Reach : Reach (start 1 pool) one_group
unfolding new_group_ring
one_group-Reach = later here (reserves 7 5 refl (omega arith))

abbrev quiet : DropDistributor
quiet = new_drop_distributor 4

abbrev first : Egress
first = new_egress true one_group.ring quiet

-- The calls of an egress goroutine: group 5, a drop from upstream, and a skip up to group 14.
abbrev calls : List Op
calls =
    sends 5
    ∷ reports (record { start_group = 2; end_group = 9; error_code = 3 })
    ∷ skips 12 14 1
    ∷ []

run_calls :
    (run calls (new_drop_reporter quiet)).0
    ≡ record { start_group = 6; end_group = 9; error_code = 3 }
      ∷ record { start_group = 10; end_group = 11; error_code = 1 }
      ∷ record { start_group = 13; end_group = 14; error_code = 1 }
      ∷ []
unfolding run new_drop_reporter new_drop_distributor unhandled_from within_cap put_span
run_calls = refl

abbrev empty_ledger : Ledger
empty_ledger = record { started = false; start = 0; holds = λ g. false }

calls-RunsIn : RunsIn calls (new_drop_reporter quiet)
unfolding run new_drop_reporter new_drop_distributor within_cap put_span
calls-RunsIn = (
  omega arith,
  omega arith,
  (omega arith, omega arith, ((omega arith, omega arith), omega arith, tt)),
)

begins_empty : IsReporter (new_drop_reporter quiet) × Refines (new_drop_reporter quiet) empty_ledger
unfolding new_drop_reporter is_handled
begins_empty = (
  record { apart = tt; short = omega arith },
  record { started_as = refl; start_as = refl; handled_as = λ g. refl },
)

run-Refines_example :
    Refines (run calls (new_drop_reporter quiet)).1 (replay calls empty_ledger).1
    × ((g : ℕ) → names g (run calls (new_drop_reporter quiet)).0 ≡ (replay calls empty_ledger).0 g)
run-Refines_example =
    run-Refines calls (new_drop_reporter quiet) empty_ledger begins_empty.0 calls-RunsIn
      begins_empty.1

-- A round that sends group 5.
abbrev gives_group : List Given × Egress × After
gives_group = egress_round codes 1 1 (look 1 one_group.ring) quiet group_sent first

sends_group : gives_group.0 ≡ group 5 ∷ []
unfolding egress_round new_group_ring look new_egress reserve new_drop_distributor
sends_group = refl

quiet-SmallDrops : SmallDrops quiet
unfolding new_drop_distributor
quiet-SmallDrops i = omega arith

first_pickup : (cache : Pickup) → look 1 one_group.ring ≡ some cache → IsPickup cache
unfolding new_group_ring look reserve
first_pickup cache e = ground arith

given_once_example : times 5 ([] ++ gives_group.0) ≤ 1
given_once_example =
    given_once codes true one_group.ring quiet 5 ([] ++ gives_group.0) gives_group.1
      (rounds begins 1 1 (look 1 one_group.ring) quiet group_sent first_pickup quiet-SmallDrops)

finds-InOrder_example :
    InOrder one_group
      (start_position true one_group.ring)
      ((left_by codes one_group one_group one_group quiet group_sent first).last + 1)
      (found_by one_group one_group one_group first [])
finds-InOrder_example =
    finds-InOrder codes 1 pool one_group true quiet one_group
      (found_by one_group one_group one_group first [])
      (left_by codes one_group one_group one_group quiet group_sent first) (omega arith)
      one_group-Reach
      (follows_round follows_start one_group one_group one_group here here here quiet group_sent)

-- The group is found at position 1.
finds_group :
    found_by one_group one_group one_group first []
    ≡ record { pos = 1; cache = record { seq = 5; highest_seq = 5 } } ∷ []
unfolding new_egress look reserve new_group_ring next_position
finds_group = refl

-- A subscriber whose next position is that of a group not yet in the array.
abbrev first_public : Reserver
first_public = advancing 7 5 (idle (start 1 pool))

newest_passed_example :
    (egress_round codes
        (head first_public.sys.ring)
        (earliest_available first_public.sys.ring)
        (look 1 first_public.sys.ring)
        quiet
        group_sent
        first
      ≡ ([], record first { last = 1 }, waits))
    × Finds (placed 7 5 first_public.sys).ring 1
unfolding new_group_ring new_egress reserve new_drop_distributor
newest_passed_example =
    newest_passed codes 1 pool first_public 7 5 quiet group_sent first (omega arith)
      (reserver_later reserver_here (advances 7 5 refl refl (omega arith))) refl refl refl

-- Two drops in a distributor that keeps one, and a reader that has read none.
abbrev history : ℕ → SubscribeDrop
history p = record { start_group = p; end_group = p; error_code = 3 }

abbrev both : DropDistributor
both = record_drop (history 2) (record_drop (history 1) (new_drop_distributor 1))

both-Records : Records 1 history both
unfolding record_drop new_drop_distributor
both-Records = records (records nothing_yet (omega arith)) (omega arith)

since-both : since 0 both ≡ (history 2 ∷ [], 2, 1)
unfolding since record_drop new_drop_distributor
since-both = refl

since-recent_example : since 0 both ≡ (
  listed history (0 + 1 + (both.pos - both.size - 0)) (both.pos - 0 - (both.pos - both.size - 0)),
  both.pos,
  both.pos - both.size - 0,
)
unfolding record_drop new_drop_distributor
since-recent_example = since-recent 1 history both 0 both-Records (omega arith)
