-- ===== src/Relay/Cache/Reader.antt =====
-- internal/relay/group_cache.go, frames: the iterator that a subscriber's goroutine runs over a cache
-- while the filler may be writing to it.
use qumo.Common.{
  ap, ◌∙◌, ℕ, zero, suc, ◌+◌, ◌<◌, ◌≡◌, Bool, true, false, not, ◌||◌, none, some, List, [], ◌∷◌,
  if◌then◌else◌, arith, get_elem?, All, Option-cases, inl, inr,
}
use qumo.Relay.Cache.{
  Frame, FramePool, GroupCache, max_frames_per_group, append, mark_complete, next,
}
use qumo.Relay.Cache.Slots.{IsFilled}
use qumo.Relay.Cache.Filling.{
  Filling, FillReach, IsFilling, reach-IsFilling, Grows, Grows-trans, reach-Grows, none_after,
  IsFresh, begun, begun-IsFilling,
}

-- One round of the iterator's loop: the cache as `next` loads it, and as `isComplete` loads it if the
-- round gets there, what `yield` answers, and what `wait` answers.
pub record Round : Type 0 where
  pub at_next : GroupCache
  pub at_complete : GroupCache
  pub wants : Bool
  pub waits : Bool

-- The frames yielded, and whether the iteration has ended within these rounds.
unfoldable pub frames : ℕ → List Round → List Frame × Bool
frames i [] = ([], false)
frames i (r ∷ rs) = elim (next i r.at_next) [
  | some f ↦
      if r.wants then (let (fs, ended) = frames (suc i) rs in (f ∷ fs, ended)) else (f ∷ [], true)
  | none ↦
      let more = frames i rs in if r.at_complete.complete || not r.waits then ([], true) else more
]

-- A reader's rounds among the filler's accesses, of which any may come before a load.
pub data Reads : Filling → List Round → Filling → Type 0 where
  reads_end : {s t : Filling} → FillReach s t → Reads s [] t
  reads_round :
      {s t u w : Filling} {rs : List Round} (wants waits : Bool)
      → FillReach s t
      → FillReach t u
      → Reads u rs w
      → Reads s
          (record { at_next = t.cache; at_complete = u.cache; wants = wants; waits = waits } ∷ rs)
          w

Reads-FillReach :
    {s w : Filling} {rs : List Round} → Reads s rs w → IsFilling s → IsFilling w × Grows s w
Reads-FillReach (reads_end r) v = (reach-IsFilling v r, reach-Grows v r)
Reads-FillReach (reads_round wants waits r r' more) v =
    let v' = reach-IsFilling v r in
    let v'' = reach-IsFilling v' r' in
    let (last, grows) = Reads-FillReach more v'' in
    (last, Grows-trans (Grows-trans (reach-Grows v r) (reach-Grows v' r')) grows)

-- What a round's load of the next frame and its load of `complete` have to do with the end.
record Loaded (t u w : Filling) : Type 0 where
  now : IsFilling t
  then_on : IsFilling u
  to_end : Grows t w

loaded :
    {s t u w : Filling} {rs : List Round}
    → IsFilling s
    → FillReach s t
    → FillReach t u
    → Reads u rs w
    → Loaded t u w
loaded v r r' more =
    let v' = reach-IsFilling v r in
    let v'' = reach-IsFilling v' r' in
    record {
      now = v';
      then_on = v'';
      to_end = Grows-trans (reach-Grows v' r') (Reads-FillReach more v'').1;
    }

in_order :
    {s w : Filling} {rs : List Round} (i j : ℕ) (f : Frame)
    → IsFilling s
    → Reads s rs w
    → get_elem? (frames i rs).0 j ≡ some f
    → w.cache.slots (i + j) ≡ some f
unfolding frames next
in_order i j f v (reads_end r) e = cc
in_order {s} {w} i zero f v (reads_round {t = t} {u} {rs = rs} wants waits r r' more) e =
    let l = loaded v r r' more in
    ground (arith, l.to_end.kept i f, in_order i zero f l.then_on more)
in_order {s} {w} i (suc j) f v (reads_round {t = t} {u} {rs = rs} wants waits r r' more) e =
    let l = loaded v r r' more in
    ground (arith, in_order i (suc j) f l.then_on more, in_order (suc i) j f l.then_on more)

-- Whatever accesses of the filler of a cache, those within an append too, come between a reader's
-- loads: the j-th frame that the reader yields is the one that the j-th slot holds at last, so it
-- skips none, repeats none and yields none out of order.
pub frames_in_order :
    (gc : GroupCache) (rs : List Round) (w : Filling) (j : ℕ) (f : Frame)
    → IsFresh gc
    → Reads (begun gc) rs w
    → get_elem? (frames 0 rs).0 j ≡ some f
    → w.cache.slots j ≡ some f
frames_in_order gc rs w j f v r e =
    let found = in_order 0 j f (begun-IsFilling gc v) r e in ground (arith, found)

-- Rounds in which nothing is written between the load of `next` and that of `isComplete`, with a
-- subscriber that takes every frame and waits.
abbrev pub Undisturbed : Round → Type 0
Undisturbed r = (r.at_complete ≡ r.at_next) × (r.wants ≡ true) × (r.waits ≡ true)

-- Once a reader finds no frame in a cache that is complete, there are none that it has not yielded.
none_left :
    (t w : Filling) (i j : ℕ)
    → IsFilling t
    → Grows t w
    → t.cache.complete ≡ true
    → t.cache.slots i ≡ none
    → w.cache.slots (i + j) ≡ none
none_left t w i j v g done e = g.whole done (i + j) ∙ none_after t i j v e

whole :
    {s w : Filling} {rs : List Round} (i j : ℕ)
    → IsFilling s
    → Reads s rs w
    → All Undisturbed rs
    → (frames i rs).1 ≡ true
    → (w.cache.complete ≡ true) × (get_elem? (frames i rs).0 j ≡ w.cache.slots (i + j))
unfolding frames next
whole i j v (reads_end r) p e = cc
whole {s} {w} i zero v (reads_round {t = t} {u} {rs = rs} wants waits r r' more) p e =
    let l = loaded v r r' more in
    let same : u.cache.complete ≡ t.cache.complete = ap (λ (gc : GroupCache). gc.complete) p.0.0 in
    let later = whole i 0 l.then_on more p.1 in
    let end = none_left t w i 0 l.now l.to_end in
    elim (Option-cases (t.cache.slots i)) [
      | inl n ↦ ground (arith, p.0.1, p.0.2, l.to_end.still)
      | inr (f, h) ↦
          let kept = l.to_end.kept i f h in
          ground
            (arith, p.0.1, p.0.2, l.now.capped, l.now.past i, whole (suc i) 0 l.then_on more p.1)
    ]
whole {s} {w} i (suc j) v (reads_round {t = t} {u} {rs = rs} wants waits r r' more) p e =
    let l = loaded v r r' more in
    let same : u.cache.complete ≡ t.cache.complete = ap (λ (gc : GroupCache). gc.complete) p.0.0 in
    let later = whole i (suc j) l.then_on more p.1 in
    let end = none_left t w i (suc j) l.now l.to_end in
    elim (Option-cases (t.cache.slots i)) [
      | inl n ↦ ground (arith, p.0.1, p.0.2, l.to_end.still)
      | inr (f, h) ↦
          let kept = l.to_end.kept i f h in
          ground
            (arith, p.0.1, p.0.2, l.now.capped, l.now.past i, whole (suc i) j l.then_on more p.1)
    ]

-- A subscriber that takes every frame and waits, and whose two loads of each round see the same cache,
-- while the filler's accesses come between its rounds in any way: when it ends, the group is complete,
-- and it has yielded exactly the frames that the slots hold, each at its place.
pub frames_whole :
    (gc : GroupCache) (rs : List Round) (w : Filling) (j : ℕ)
    → IsFresh gc
    → Reads (begun gc) rs w
    → All Undisturbed rs
    → (frames 0 rs).1 ≡ true
    → (w.cache.complete ≡ true) × (get_elem? (frames 0 rs).0 j ≡ w.cache.slots j)
frames_whole gc rs w j v r p e =
    let (done, same) = whole 0 j (begun-IsFilling gc v) r p e in
    (done, same ∙ ap w.cache.slots (omega arith))

-- The last frame of a group can be lost: a reader that has yielded every frame so far finds no next
-- one; then the filler appends `f`, and completes the group; and the reader ends without `f`.
pub tail_lost :
    (gc : GroupCache) (pool : FramePool) (f : Frame) (wants waits : Bool) (rs : List Round)
    → IsFilled gc
    → gc.count < max_frames_per_group
    → let done = mark_complete (append f gc pool).0 in
      (next gc.count done ≡ some f)
      × (frames gc.count
            (record { at_next = gc; at_complete = done; wants = wants; waits = waits } ∷ rs)
          ≡ ([], true))
unfolding frames next append mark_complete
tail_lost gc pool f wants waits rs v room = (ground arith, ground (arith, v.past gc.count))
