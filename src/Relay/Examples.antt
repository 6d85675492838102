-- ===== src/Relay/Examples.antt =====
-- internal/relay/group_cache.go: concrete runs, and the theorems at concrete inputs.
use qumo.Common.{
  ◌<◌, ◌≡◌, refl, true, none, some, List, [], ◌∷◌, ◌++◌, arith, map, length, take, get_elem?,
}
use qumo.Relay.Cache.{
  Frame, FramePool, GroupCache, new_group_cache, max_frames_per_group, append, mark_complete, next,
}
use qumo.Relay.Cache.Filling.{
  Filling, counting, stored, completed, counts, stores, completes, fill_here, fill_later, IsFresh,
  begun,
}
use qumo.Relay.Cache.Reader.{
  Reads, reads_end, reads_round, Round, frames, frames_in_order, frames_whole, tail_lost,
}
use qumo.Relay.Ring.{new_group_ring, reserve, get, fill}
use qumo.Relay.Ring.Steps.{System, start, reserving, reserves, Reach, here, later}
use qumo.Relay.Ring.Readers.{Stays, held_here, held_later, held-Stays}
use qumo.Relay.Ring.Fill.{next-fill}
use qumo.Relay.Ring.Racing.{Racing, RacingReach, quiet, whole}
use qumo.Relay.Ring.Race.{held-recycled}
use qumo.Relay.Ring.Advance.{
  Reserver, advancing, advances, idle, ReserverReach, reserver_here, reserver_later, FindsOnly,
  get_window,
}

abbrev pool : FramePool
pool = record { capacity = 1500; taken = 0 }

-- A ring of one slot with the group 5 at the address 7.
abbrev one_group : System
one_group = reserving 7 5 (start 1 pool)

one_group-Reach : Reach (start 1 pool) one_group
unfolding new_group_ring
one_group-Reach = later here (reserves 7 5 refl (omega arith))

-- The ring is full, and the group at position 1 is found; position 2 is not there yet.
get_first : (get 1 one_group.ring).0 ≡ some 7
unfolding get reserve new_group_ring
get_first = refl

get_second : (get 2 one_group.ring).0 ≡ none
unfolding get reserve new_group_ring
get_second = refl

-- The position 1 is public, and its group is not in the array.
abbrev first_public : Reserver
first_public = advancing 7 5 (idle (start 1 pool))

first_public-Reach : ReserverReach (idle (start 1 pool)) first_public
unfolding new_group_ring
first_public-Reach = reserver_later reserver_here (advances 7 5 refl refl (omega arith))

get_window_example : FindsOnly first_public 1
get_window_example = get_window 1 pool first_public 1 (omega arith) first_public-Reach

-- The next group takes the only slot while the filler still holds the first one.
abbrev two_groups : System
two_groups = reserving 8 6 one_group

held-Stays_example : Stays one_group two_groups 7
unfolding new_group_ring reserve
held-Stays_example =
    held-Stays 1 pool 7 one_group (record (quiet one_group) { sys = two_groups }) (omega arith)
      one_group-Reach (omega arith)
      (held_later held_here (whole (reserves 8 6 refl (omega arith))) (omega arith))

held-recycled_example :
    (t : Racing) × RacingReach (quiet one_group) t
    × (0 < t.sys.held 7)
    × (t.sys.ring.pooled 7 ≡ true)
unfolding new_group_ring reserve
held-recycled_example =
    held-recycled 1 pool one_group 7 8 6 (omega arith) one_group-Reach refl refl refl (omega arith)

abbrev two_frames : List Frame
two_frames = (1 ∷ 2 ∷ []) ∷ (3 ∷ []) ∷ []

next-fill_example :
    (next 1 ((fill 7 two_frames (reserve 7 5 (start 1 pool).ring)).0.heap 7)
      ≡ get_elem? (take max_frames_per_group two_frames) 1)
    × (((fill 7 two_frames (reserve 7 5 (start 1 pool).ring)).0.heap 7).complete ≡ true)
    × ((fill 7 two_frames (reserve 7 5 (start 1 pool).ring)).1 ≡ map length two_frames ++ 0 ∷ [])
unfolding new_group_ring
next-fill_example =
    next-fill 1 pool (start 1 pool) 7 5 two_frames 1 (omega arith) here refl (omega arith)

-- The calls of onFrame in that fill.
fill_calls : (fill 7 two_frames (reserve 7 5 (start 1 pool).ring)).1 ≡ 2 ∷ 1 ∷ 0 ∷ []
unfolding fill
fill_calls = refl

-- A reader's rounds: one between the two accesses of an append, one after them, and one at the end.
abbrev fresh : GroupCache
fresh = new_group_cache 5

abbrev counted_frame : Filling
counted_frame = counting (9 ∷ []) (begun fresh)

abbrev stored_frame : Filling
stored_frame = stored 0 (9 ∷ []) counted_frame

abbrev ended : Filling
ended = completed stored_frame

abbrev round : Filling → Round
round s = record { at_next = s.cache; at_complete = s.cache; wants = true; waits = true }

abbrev rounds : List Round
rounds = round counted_frame ∷ round ended ∷ round ended ∷ []

fresh-IsFresh : IsFresh fresh
fresh-IsFresh = record { no_frames = refl; no_slots = λ i. refl; going = refl }

rounds-Reads : Reads (begun fresh) rounds ended
rounds-Reads =
    reads_round true true (fill_later fill_here (counts (9 ∷ []) refl refl (omega arith))) fill_here
      (reads_round true true
        (fill_later (fill_later fill_here (stores 0 (9 ∷ []) refl)) (completes refl)) fill_here
        (reads_round true true fill_here fill_here (reads_end fill_here)))

frames_in_order_example : ended.cache.slots 0 ≡ some (9 ∷ [])
unfolding frames next mark_complete
frames_in_order_example =
    frames_in_order fresh rounds ended 0 (9 ∷ []) fresh-IsFresh rounds-Reads refl

frames_whole_example :
    (ended.cache.complete ≡ true) × (get_elem? (frames 0 rounds).0 0 ≡ ended.cache.slots 0)
unfolding frames next mark_complete
frames_whole_example =
    frames_whole fresh rounds ended 0 fresh-IsFresh rounds-Reads
      ((refl, refl, refl), ((refl, refl, refl), ((refl, refl, refl), tt))) refl

tail_lost_example :
    (next 0 (mark_complete (append (9 ∷ []) (new_group_cache 5) pool).0) ≡ some (9 ∷ []))
    × (frames 0 (
          record {
            at_next = new_group_cache 5;
            at_complete = mark_complete (append (9 ∷ []) (new_group_cache 5) pool).0;
            wants = true;
            waits = true;
          }
          ∷ [])
        ≡ ([], true))
tail_lost_example =
    tail_lost (new_group_cache 5) pool (9 ∷ []) true true []
      (record { capped = omega arith; past = λ i le. refl; stored = λ i lt. absurd (omega arith) })
      (omega arith)
