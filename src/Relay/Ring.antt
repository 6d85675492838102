-- ===== src/Relay/Ring.antt =====
-- internal/relay/group_cache.go, the ring: an array of pointers to group caches, which are
-- recycled through a sync.Pool. An address stands for a *groupCache.
pub mod Steps
pub mod Invariant
mod Reserve
pub mod Holders
pub mod Window
pub mod Advance
pub mod Racing
pub mod Contents
pub mod Readers
pub mod Fill
pub mod Race
use qumo.Common.{
  ℕ, ◌+◌, ◌-◌, ◌%◌, ◌^◌, Bool, true, false, not, ◌&&◌, Option, none, some, List, [], ◌∷◌, ltb, leb,
  ◌==◌, if◌then◌else◌, update, length, ◌++◌,
}
use qumo.Relay.Cache.{
  Frame, FramePool, GroupCache, new_group_cache, clear_slots, reset_for_reuse, mark_complete, add32,
  incr_ref, append, put_slots, pool_get, pool_put,
}

-- `pooled a`: gcPool may hand out the address `a`, either put back by releaseCache or not made yet
-- (gcPool.New). `caches` has length `size`.
pub record GroupRing : Type 0 where
  pub caches : ℕ → Option ℕ
  pub heap : ℕ → GroupCache
  pub pooled : ℕ → Bool
  pub pool : FramePool
  pub size : ℕ
  pub pos : ℕ
  pub max_seq : ℕ

unfoldable pub new_group_ring : ℕ → FramePool → GroupRing
new_group_ring size pool = record {
  caches = λ _. none;
  heap = λ _. new_group_cache 0;
  pooled = λ _. true;
  pool = pool;
  size = size;
  pos = 0;
  max_seq = 0;
}

-- Writes through the pointer `a`.
abbrev pub write : ℕ → GroupCache → GroupRing → GroupRing
write a gc ring = record ring { heap = update ring.heap a gc }

unfoldable pub release_cache : ℕ → GroupRing → GroupRing
release_cache a ring =
    let gc = ring.heap a in
    if gc.released then ring else record ring {
      heap =
          update ring.heap a
            (record gc { slots = clear_slots gc.count gc.slots; count = 0; released = true });
      pool = put_slots gc.count gc.slots ring.pool;
      pooled = update ring.pooled a true;
    }

unfoldable pub mark_evicted_locked : ℕ → GroupRing → GroupRing
unfolding release_cache
mark_evicted_locked a ring =
    let marked = write a (record (ring.heap a) { evicted = true }) ring in
    if (ring.heap a).ref_count == 0 then release_cache a marked else marked

-- The two halves of decrRef: `refCount.Add(-1)`, and what follows when it has reached 0.
unfoldable pub drop_count : ℕ → GroupRing → GroupRing
drop_count a ring =
    let gc = ring.heap a in write a (record gc { ref_count = add32 gc.ref_count (2 ^ 32 - 1) }) ring

unfoldable pub release_evicted : ℕ → GroupRing → GroupRing
unfolding release_cache
release_evicted a ring = if (ring.heap a).evicted then release_cache a ring else ring

-- The halves with nothing in between; `Race` lets others go in between.
unfoldable pub decr_ref : ℕ → GroupRing → GroupRing
unfolding drop_count release_evicted
decr_ref a ring =
    let dropped = drop_count a ring in
    if (dropped.heap a).ref_count == 0 then release_evicted a dropped else dropped

-- What reserve makes of the cache `gc` that gcPool.Get returned.
unfoldable pub reserved_cache : ℕ → ℕ → ℕ → GroupCache → GroupCache
unfolding reset_for_reuse
reserved_cache seq highest pos gc = record (reset_for_reuse gc) {
  seq = seq;
  complete = false;
  ref_count = 1;
  evicted = false;
  released = false;
  highest_seq = highest;
  pos = pos;
}

-- What reserve makes public in front of the lock: maxSeq, and with `pos.Add(1)` the next position.
abbrev pub advance : ℕ → GroupRing → GroupRing
advance seq ring = record ring {
  pos = (ring.pos + 1) % 2 ^ 64;
  max_seq = if ltb ring.max_seq seq then seq else ring.max_seq;
}

-- The rest of it: `a` is the address that gcPool.Get returned, which nobody else holds, so that what
-- was written to its cache before is seen from the swap on.
unfoldable pub place : ℕ → ℕ → GroupRing → GroupRing
unfolding reserved_cache mark_evicted_locked
place a seq ring =
    let idx = ring.pos % ring.size in
    let swapped : GroupRing = record ring {
      heap = update ring.heap a (reserved_cache seq ring.max_seq ring.pos (ring.heap a));
      caches = update ring.caches idx (some a);
      pooled = update ring.pooled a false;
    } in
    elim (ring.caches idx) [ none ↦ swapped | some old ↦ mark_evicted_locked old swapped ]

-- The two with nothing in between; `Advance` lets others go in between.
unfoldable pub reserve : ℕ → ℕ → GroupRing → GroupRing
unfolding place
reserve a seq ring = place a seq (advance seq ring)

unfoldable pub get : ℕ → GroupRing → Option ℕ × GroupRing
unfolding incr_ref
get pos ring = elim (ring.caches (pos % ring.size)) [
  | none ↦ (none, ring)
  | some a ↦
      if (ring.heap a).pos == pos && not (ring.heap a).released
      then (some a, write a (incr_ref (ring.heap a)) ring)
      else (none, ring)
]

abbrev pub head : GroupRing → ℕ
head ring = ring.pos

unfoldable pub earliest_available : GroupRing → ℕ
earliest_available ring = if leb (head ring) ring.size then 1 else head ring - ring.size + 1

-- The appends of fill's loop, and the argument of each call of onFrame.
unfoldable pub fill_frames : ℕ → List Frame → GroupRing → GroupRing × List ℕ
unfolding append
fill_frames a [] ring = (ring, [])
fill_frames a (f ∷ fs) ring =
    let (gc, pool) = append f (ring.heap a) ring.pool in
    let (ring', calls) = fill_frames a fs (record (write a gc ring) { pool = pool }) in
    (ring', length f ∷ calls)

-- The deferred calls run in reverse: the reference is dropped first, then the read buffer goes back.
unfoldable pub fill : ℕ → List Frame → GroupRing → GroupRing × List ℕ
unfolding fill_frames mark_complete decr_ref pool_get pool_put
fill a fs ring =
    let (filled, calls) = fill_frames a fs (record ring { pool = pool_get ring.pool }) in
    let dropped = decr_ref a (write a (mark_complete (filled.heap a)) filled) in
    (record dropped { pool = pool_put dropped.pool }, calls ++ 0 ∷ [])
