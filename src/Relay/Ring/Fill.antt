-- ===== src/Relay/Ring/Fill.antt =====
-- internal/relay/group_cache.go, fill: what a group's cache holds once its filler is done with it.
use qumo.Common.{
  ℕ, zero, suc, ◌+◌, ◌-◌, ◌%◌, ◌^◌, ◌≤◌, ◌<◌, ◌≡◌, refl, true, false, some, none, arith, ◌==◌,
  Option, List, [], ◌∷◌, ◌++◌, length, take, get_elem?, ltb, if◌then◌else◌, map, ◌∙◌, update_self,
}
use qumo.Relay.Cache.{Frame, FramePool, GroupCache, max_frames_per_group, append, next, pool_get}
use qumo.Relay.Cache.Slots.{IsFilled, append-IsFilled}
use qumo.Relay.Ring.{GroupRing, fill_frames, fill, reserve}
use qumo.Relay.Ring.Steps.{append_at, System, start, Reach}
use qumo.Relay.Ring.Invariant.{Inv}
use qumo.Relay.Ring.Holders.{Reach-Inv}
use qumo.Relay.Ring.Contents.{reserve-Contents}
use qumo.Relay.Ring.Readers.{Reach-Contents}

-- What the k-th of the frames given to a cache with room for `n` becomes.
pub nth : ℕ → List Frame → ℕ → Option Frame
nth n fs k = get_elem? (take n fs) k

-- The frames that a slot holds after `fs` were appended to `gc`: what it held, or the frame appended
-- there, if the group had room for it.
abbrev after : GroupCache → List Frame → ℕ → Option Frame
after gc fs i =
    if ltb i gc.count then gc.slots i else nth (max_frames_per_group - gc.count) fs (i - gc.count)

-- The cache after the loop, and that the loop touches no flag of it and calls onFrame with each length.
pub record Filled (a : ℕ) (fs : List Frame) (ring : GroupRing) : Type 0 where
  pub slots_after : (i : ℕ) → ((fill_frames a fs ring).0.heap a).slots i ≡ after (ring.heap a) fs i
  pub capped : ((fill_frames a fs ring).0.heap a).count ≤ max_frames_per_group
  pub same_refs : ((fill_frames a fs ring).0.heap a).ref_count ≡ (ring.heap a).ref_count
  pub same_evicted : ((fill_frames a fs ring).0.heap a).evicted ≡ (ring.heap a).evicted
  pub calls : (fill_frames a fs ring).1 ≡ map length fs

nth-nil : (n k : ℕ) → nth n [] k ≡ none
unfolding nth
nth-nil zero k = refl
nth-nil (suc n) k = refl

nth-zero : (n : ℕ) (fs : List Frame) (k : ℕ) → n ≡ 0 → nth n fs k ≡ none
unfolding nth
nth-zero n fs k e = rw e

get_elem?-take_past : (n : ℕ) (fs : List Frame) (i : ℕ) → n ≤ i → nth n fs i ≡ none
unfolding nth
get_elem?-take_past zero fs i h = refl
get_elem?-take_past (suc n) [] i h = refl
get_elem?-take_past (suc n) (f ∷ fs) zero h = absurd (omega arith)
get_elem?-take_past (suc n) (f ∷ fs) (suc i) h = get_elem?-take_past n fs i (omega arith)

nth-suc :
    (n : ℕ) (f : Frame) (fs : List Frame) (k : ℕ)
    → 0 < n
    → nth n (f ∷ fs) k ≡ (if k == 0 then some f else nth (n - 1) fs (k - 1))
unfolding nth
nth-suc zero f fs k h = absurd (omega arith)
nth-suc (suc n) f fs zero h = refl
nth-suc (suc n) f fs (suc k) h =
    let e : suc n - 1 ≡ n = omega arith in
    let d : suc k - 1 ≡ k = omega arith in rw (e, d) (ground arith)

append_at-IsFilled :
    (a : ℕ) (f : Frame) (ring : GroupRing)
    → IsFilled (ring.heap a)
    → IsFilled ((append_at a f ring).heap a)
append_at-IsFilled a f ring v =
    rw (update_self ring.heap a _) (append-IsFilled f (ring.heap a) ring.pool v)

fill_frames-Filled :
    (a : ℕ) (fs : List Frame) (ring : GroupRing) → IsFilled (ring.heap a) → Filled a fs ring
unfolding fill_frames append
fill_frames-Filled a [] ring v = record {
  slots_after = λ i. ground (
    arith,
    v.past i,
    nth-nil (max_frames_per_group - (ring.heap a).count) (i - (ring.heap a).count),
  );
  capped = v.capped;
  same_refs = refl;
  same_evicted = refl;
  calls = refl;
}
fill_frames-Filled a (f ∷ fs) ring v =
    let gc = ring.heap a in
    let rest = fill_frames-Filled a fs (append_at a f ring) (append_at-IsFilled a f ring v) in
    record {
      slots_after = λ i. ground (
        arith,
        v.past i,
        rest.slots_after i,
        nth-zero (max_frames_per_group - gc.count) (f ∷ fs) (i - gc.count),
        nth-zero (max_frames_per_group - gc.count) fs (i - gc.count),
        nth-suc (max_frames_per_group - gc.count) f fs (i - gc.count),
      );
      capped = rest.capped;
      same_refs = ground (arith, rest.same_refs);
      same_evicted = ground (arith, rest.same_evicted);
      calls = ground (arith, rest.calls);
    }

nth_lem : (n : ℕ) (fs : List Frame) (i : ℕ) → nth n fs i ≡ get_elem? (take n fs) i
unfolding nth
nth_lem n fs i = refl

next-slots :
    (gc : GroupCache) (i : ℕ) {x : Option Frame}
    → gc.slots i ≡ x
    → (max_frames_per_group ≤ i → x ≡ none)
    → next i gc ≡ x
unfolding next
next-slots gc i e past = ground arith

reserved-kept :
    (s : System) (v : Inv s) (a seq : ℕ)
    → s.ring.pooled a ≡ true
    → (((reserve a seq s.ring).heap a).evicted ≡ false)
      × (((reserve a seq s.ring).heap a).count ≡ 0)
unfolding reserve
reserved-kept s v a seq free = ground (arith, v.slot ((s.ring.pos + 1) % 2 ^ 64 % s.ring.size) a)

module _ (a : ℕ) (fs : List Frame) (ring : GroupRing) (v : IsFilled (ring.heap a)) where
  module _ (kept : (ring.heap a).evicted ≡ false) (empty : (ring.heap a).count ≡ 0) where
    w : Filled a fs (record ring { pool = pool_get ring.pool })
    w = fill_frames-Filled a fs (record ring { pool = pool_get ring.pool }) v

    slots-fill : (i : ℕ) → ((fill a fs ring).0.heap a).slots i ≡ nth max_frames_per_group fs i
    unfolding fill
    slots-fill i = ground (arith, w.slots_after i, w.same_evicted)

    next-fill_empty :
        (i : ℕ) → next i ((fill a fs ring).0.heap a) ≡ get_elem? (take max_frames_per_group fs) i
    next-fill_empty i =
        next-slots _ i (slots-fill i) (get_elem?-take_past max_frames_per_group fs i)
        ∙ nth_lem max_frames_per_group fs i

    complete-fill : ((fill a fs ring).0.heap a).complete ≡ true
    unfolding fill
    complete-fill = ground (arith, w.same_evicted)

  calls-fill : (fill a fs ring).1 ≡ map length fs ++ 0 ∷ []
  unfolding fill
  calls-fill =
      let w = fill_frames-Filled a fs (record ring { pool = pool_get ring.pool }) v in
      ground (arith, w.calls)

-- A group that is reserved in any reachable state and filled with `fs` is complete; `next i` is the
-- i-th frame of it, of at most `max_frames_per_group`, and none past the last; and its filler calls
-- onFrame with the length of every frame, also of one that the cache has no room for, and then with 0.
pub next-fill :
    (size : ℕ) (pool : FramePool) (s : System) (a seq : ℕ) (fs : List Frame) (i : ℕ)
    → 0 < size
    → Reach (start size pool) s
    → s.ring.pooled a ≡ true
    → s.ring.pos + 1 < 2 ^ 64
    → (next i ((fill a fs (reserve a seq s.ring)).0.heap a)
        ≡ get_elem? (take max_frames_per_group fs) i)
      × (((fill a fs (reserve a seq s.ring)).0.heap a).complete ≡ true)
      × ((fill a fs (reserve a seq s.ring)).1 ≡ map length fs ++ 0 ∷ [])
next-fill size pool s a seq fs i h r free room =
    let v = Reach-Inv size pool h r in
    let c = Reach-Contents size pool h r in
    let f = (reserve-Contents s v c a seq free room).filled a in
    let kept = reserved-kept s v a seq free in
    let ring = reserve a seq s.ring in
    (
      next-fill_empty a fs ring f kept.0 kept.1 i,
      complete-fill a fs ring f kept.0 kept.1,
      calls-fill a fs ring f,
    )
