-- ===== src/Relay/Cache/Slots.antt =====
-- internal/relay/group_cache.go: which slots of a cache are filled.
use qumo.Common.{ℕ, zero, suc, ◌≤◌, ◌<◌, ◌≡◌, ◌≢◌, Option, none, ltb, if◌then◌else◌, arith}
use qumo.Relay.Cache.{Frame, FramePool, GroupCache, max_frames_per_group, clear_slots, append}

-- Exactly the first `count` slots hold a frame, and there are at most `max_frames_per_group`.
pub record IsFilled (gc : GroupCache) : Type 0 where
  pub capped : gc.count ≤ max_frames_per_group
  pub past : (i : ℕ) → gc.count ≤ i → gc.slots i ≡ none
  pub stored : (i : ℕ) → i < gc.count → gc.slots i ≢ none

pub clear_slots_lem :
    (n : ℕ) (slots : ℕ → Option Frame) (i : ℕ)
    → clear_slots n slots i ≡ (if ltb i n then none else slots i)
unfolding clear_slots
clear_slots_lem zero slots i = ground arith
clear_slots_lem (suc n) slots i = ground (arith, clear_slots_lem n slots i)

-- Clearing the first `count` slots of a cache leaves none that holds a frame.
pub clear_slots-IsFilled :
    (gc : GroupCache) → IsFilled gc → (i : ℕ) → clear_slots gc.count gc.slots i ≡ none
clear_slots-IsFilled gc v i = ground (arith, clear_slots_lem gc.count gc.slots i, v.past i)

pub append-IsFilled :
    (f : Frame) (gc : GroupCache) (pool : FramePool) → IsFilled gc → IsFilled (append f gc pool).0
unfolding append
append-IsFilled f gc pool v = record {
  capped = ground (arith, v.capped);
  past = λ i le. ground (arith, v.past i);
  stored = λ i lt. ground (arith, v.stored i);
}
