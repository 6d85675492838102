-- ===== src/Relay/Cache.antt =====
-- internal/relay/group_cache.go, the group cache: an append-only vector of frames with its
-- counters and flags, and internal/relay/frame_pool.go, where its clones come from.
pub mod Slots
pub mod Filling
pub mod Reader
use qumo.Common.{
  ℕ, zero, suc, ◌+◌, ◌-◌, ◌%◌, ◌^◌, Bool, true, false, Option, none, some, List, ltb, leb, ◌==◌,
  if◌then◌else◌, update,
}

-- A moqt.Frame is its payload.
abbrev pub Frame : Type 0
Frame = List ℕ

abbrev pub max_frames_per_group : ℕ
max_frames_per_group = 256

-- How many frames are taken from the pool and not yet put back. A sync.Pool may hand out a frame
-- put back earlier or make one, and may drop what it holds, so nothing else of it is fixed.
pub record FramePool : Type 0 where
  pub capacity : ℕ
  pub taken : ℕ

unfoldable pub pool_get : FramePool → FramePool
pool_get p = record p { taken = p.taken + 1 }

unfoldable pub pool_put : FramePool → FramePool
pool_put p = record p { taken = p.taken - 1 }

-- `slots` is the backing array, whose length is `max_frames_per_group`; `none` is a nil pointer.
-- `ref_count` is the bit pattern of an int32.
pub record GroupCache : Type 0 where
  pub slots : ℕ → Option Frame
  pub count : ℕ
  pub seq : ℕ
  pub pos : ℕ
  pub complete : Bool
  pub ref_count : ℕ
  pub evicted : Bool
  pub released : Bool
  pub highest_seq : ℕ

abbrev pub new_group_cache : ℕ → GroupCache
new_group_cache s = record {
  slots = λ _. none;
  count = 0;
  seq = s;
  pos = 0;
  complete = false;
  ref_count = 0;
  evicted = false;
  released = false;
  highest_seq = 0;
}

-- `for i := range n { slots[i].Store(nil) }`
unfoldable pub clear_slots : ℕ → (ℕ → Option Frame) → ℕ → Option Frame
clear_slots zero slots = slots
clear_slots (suc n) slots = update (clear_slots n slots) n none

unfoldable pub reset_for_reuse : GroupCache → GroupCache
reset_for_reuse gc = record gc { slots = clear_slots gc.count gc.slots; count = 0 }

unfoldable pub mark_complete : GroupCache → GroupCache
mark_complete gc = record gc { complete = true }

abbrev pub add32 : ℕ → ℕ → ℕ
add32 a b = (a + b) % 2 ^ 32

unfoldable pub incr_ref : GroupCache → GroupCache
incr_ref gc = record gc { ref_count = add32 gc.ref_count 1 }

-- The two accesses of append: the compare-and-swap of `count`, and the store in the slot.
abbrev pub count_slot : GroupCache → GroupCache
count_slot gc = record gc { count = gc.count + 1 }

abbrev pub store_slot : ℕ → Frame → GroupCache → GroupCache
store_slot n f gc = record gc { slots = update gc.slots n (some f) }

-- One appender at a time, as in production: no other one moves `count` between the load and the
-- compare-and-swap, so the loop ends in its first round. `Filling` lets readers go between the accesses.
unfoldable pub append : Frame → GroupCache → FramePool → GroupCache × FramePool
append f gc pool =
    if leb max_frames_per_group gc.count
    then (gc, pool)
    else (store_slot gc.count f (count_slot gc), pool_get pool)

-- The index of a reader is never negative.
unfoldable pub next : ℕ → GroupCache → Option Frame
next index gc = if leb max_frames_per_group index then none else gc.slots index

-- The loop of releaseCache: every stored frame goes back to the pool, in the order of the slots.
unfoldable pub put_slots : ℕ → (ℕ → Option Frame) → FramePool → FramePool
put_slots zero slots pool = pool
put_slots (suc n) slots pool =
    let before = put_slots n slots pool in
    elim (slots n) [ none ↦ before | some _ ↦ pool_put before ]
