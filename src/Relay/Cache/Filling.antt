-- ===== src/Relay/Cache/Filling.antt =====
-- internal/relay/group_cache.go: the accesses of the filler to a cache, between which readers go.
use qumo.Common.{
  ℕ, ◌+◌, ◌≤◌, ◌<◌, ◌≡◌, ◌≢◌, refl, true, false, Option, none, some, arith, ◌∙◌, inl, inr,
  Bool-cases, Option-cases, leb,
}
use qumo.Relay.Cache.{
  Frame, FramePool, GroupCache, max_frames_per_group, count_slot, store_slot, append, mark_complete,
}

-- `storing` is the slot that append has counted and not yet stored to, with the clone.
pub record Filling : Type 0 where
  pub cache : GroupCache
  pub storing : Option (ℕ × Frame)

abbrev pub counting : Frame → Filling → Filling
counting f s = record { cache = count_slot s.cache; storing = some (s.cache.count, f) }

abbrev pub stored : ℕ → Frame → Filling → Filling
stored n f s = record { cache = store_slot n f s.cache; storing = none }

abbrev pub completed : Filling → Filling
completed s = record s { cache = mark_complete s.cache }

-- A single filler, which completes the group after its appends.
pub data FillStep (s : Filling) : Filling → Type 0 where
  counts :
      (f : Frame)
      → s.storing ≡ none
      → s.cache.complete ≡ false
      → s.cache.count < max_frames_per_group
      → FillStep s (counting f s)
  stores : (n : ℕ) (f : Frame) → s.storing ≡ some (n, f) → FillStep s (stored n f s)
  completes : s.storing ≡ none → FillStep s (completed s)

pub data FillReach (s : Filling) : Filling → Type 0 where
  fill_here : FillReach s s
  fill_later : {t u : Filling} → FillReach s t → FillStep t u → FillReach s u

-- What holds between two accesses: the slots before the one to be stored are filled, and no other.
pub record IsFilling (s : Filling) : Type 0 where
  pub capped : s.cache.count ≤ max_frames_per_group
  pub past : (i : ℕ) → s.cache.count ≤ i → s.cache.slots i ≡ none
  pub empty : (n : ℕ) (f : Frame) → s.storing ≡ some (n, f) → s.cache.slots n ≡ none
  pub last : (n : ℕ) (f : Frame) → s.storing ≡ some (n, f) → n + 1 ≡ s.cache.count
  pub before :
      (n : ℕ) (f : Frame) (i : ℕ) → s.storing ≡ some (n, f) → i < n → s.cache.slots i ≢ none
  pub all : s.storing ≡ none → (i : ℕ) → i < s.cache.count → s.cache.slots i ≢ none
  pub finished : s.cache.complete ≡ true → s.storing ≡ none

pub step-IsFilling : {s t : Filling} → IsFilling s → FillStep s t → IsFilling t
unfolding mark_complete
step-IsFilling {s} v (counts f idle going room) = record {
  capped = omega arith;
  past = λ i le. v.past i (omega arith);
  empty = λ n g e. ground (arith, v.past s.cache.count);
  last = λ n g e. ground arith;
  before = λ n g i e lt. ground (arith, v.all idle i);
  all = λ e. absurd cc;
  finished = λ e. absurd cc;
}
step-IsFilling {s} v (stores n f e) =
    let last = v.last n f e in
    record {
      capped = v.capped;
      past = λ i le. ground (arith, v.past i);
      empty = λ m g q. absurd cc;
      last = λ m g q. absurd cc;
      before = λ m g i q lt. absurd cc;
      all = λ q i lt. ground (arith, v.before n f i e);
      finished = λ q. refl;
    }
step-IsFilling {s} v (completes idle) = record {
  capped = v.capped;
  past = v.past;
  empty = v.empty;
  last = v.last;
  before = v.before;
  all = v.all;
  finished = λ q. idle;
}

pub reach-IsFilling : {s t : Filling} → IsFilling s → FillReach s t → IsFilling t
reach-IsFilling v fill_here = v
reach-IsFilling v (fill_later r st) = step-IsFilling (reach-IsFilling v r) st

-- What later accesses leave of a cache: every frame in its slot, and all of it once it is complete.
pub record Grows (s t : Filling) : Type 0 where
  pub kept : (i : ℕ) (f : Frame) → s.cache.slots i ≡ some f → t.cache.slots i ≡ some f
  pub whole : s.cache.complete ≡ true → (i : ℕ) → t.cache.slots i ≡ s.cache.slots i
  pub still : s.cache.complete ≡ true → t.cache.complete ≡ true

step-Grows : {s t : Filling} → IsFilling s → FillStep s t → Grows s t
unfolding mark_complete
step-Grows v (counts f idle going room) = record {
  kept = λ i g e. e;
  whole = λ e. absurd cc;
  still = λ e. e;
}
step-Grows v (stores n f e) = record {
  kept = λ i g q. ground (arith, v.empty n f e);
  whole = λ q. absurd (cc (v.finished q));
  still = λ q. q;
}
step-Grows v (completes idle) = record { kept = λ i g e. e; whole = λ e i. refl; still = λ e. refl }

pub Grows-refl : (s : Filling) → Grows s s
Grows-refl s = record { kept = λ i f e. e; whole = λ e i. refl; still = λ e. e }

pub Grows-trans : {s t u : Filling} → Grows s t → Grows t u → Grows s u
Grows-trans p q = record {
  kept = λ i f e. q.kept i f (p.kept i f e);
  whole = λ e i. q.whole (p.still e) i ∙ p.whole e i;
  still = λ e. q.still (p.still e);
}

pub reach-Grows : {s t : Filling} → IsFilling s → FillReach s t → Grows s t
reach-Grows {s} v fill_here = Grows-refl s
reach-Grows v (fill_later r st) =
    Grows-trans (reach-Grows v r) (step-Grows (reach-IsFilling v r) st)

-- No frame stands after an empty slot.
pub none_after :
    (s : Filling) (i j : ℕ) → IsFilling s → s.cache.slots i ≡ none → s.cache.slots (i + j) ≡ none
none_after s i j v e = elim (Option-cases s.storing) [
  | inl idle ↦ ground (arith, v.all idle i, v.past (i + j))
  | inr ((n, f), q) ↦
      let last = v.last n f q in
      let here = v.empty n f q in ground (arith, v.before n f i q, v.past (i + j))
]

-- A cache as reserve leaves it, and its filler.
pub record IsFresh (gc : GroupCache) : Type 0 where
  pub no_frames : gc.count ≡ 0
  pub no_slots : (i : ℕ) → gc.slots i ≡ none
  pub going : gc.complete ≡ false

abbrev pub begun : GroupCache → Filling
begun gc = record { cache = gc; storing = none }

pub begun-IsFilling : (gc : GroupCache) → IsFresh gc → IsFilling (begun gc)
begun-IsFilling gc v = record {
  capped = let a = v.no_frames in omega arith;
  past = λ i le. v.no_slots i;
  empty = λ n f e. absurd cc;
  last = λ n f e. absurd cc;
  before = λ n f i e lt. absurd cc;
  all = λ e i lt. absurd (let a = v.no_frames in omega arith);
  finished = λ e. refl;
}

-- A whole append is the two accesses, one after the other.
pub append-FillReach :
    (f : Frame) (gc : GroupCache) (pool : FramePool)
    → gc.complete ≡ false
    → FillReach (begun gc) (begun (append f gc pool).0)
unfolding append
append-FillReach f gc pool going = elim (Bool-cases (leb max_frames_per_group gc.count)) [
  | inl e ↦ rw e fill_here
  | inr e ↦ rw e (
      fill_later (fill_later fill_here (counts f refl going (ground arith)))
        (stores gc.count f refl))
]
