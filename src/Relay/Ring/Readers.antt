-- ===== src/Relay/Ring/Readers.antt =====
-- internal/relay/group_cache.go: what somebody who holds a reference to a cache can count on.
use qumo.Common.{none, ◌≤◌, ◌^◌, ℕ, ◌%◌, ◌<◌, ◌≡◌, refl, false, some, arith, ◌∙◌}
use qumo.Relay.Cache.{Frame, FramePool, append, mark_complete}
use qumo.Relay.Ring.{reserve, get, decr_ref, drop_count, release_evicted}
use qumo.Relay.Ring.Steps.{
  System, start, Step, reserves, gets, appends, completes, drops, Reach, here, later,
}
use qumo.Relay.Ring.Racing.{Racing, RacingStep, whole, counts, releases, quiet}
use qumo.Relay.Ring.Invariant.{Inv}
use qumo.Relay.Ring.Holders.{Reach-Inv}
use qumo.Relay.Ring.Contents.{
  highest, Contents, start-Contents, reserve-Contents, get-Contents, drop-Contents,
  complete-Contents, append-Contents,
}

pub Step-Contents : {s t : System} → Step s t → Inv s → Contents s → Contents t
Step-Contents {s} (reserves a seq free room) v c = reserve-Contents s v c a seq free room
Step-Contents {s} (gets pos a h room) v c = get-Contents s v c pos a
Step-Contents {s} (appends a f h) v c = append-Contents s v c a f
Step-Contents {s} (completes a h) v c = complete-Contents s v c a
Step-Contents {s} (drops a h) v c = drop-Contents s v c a

pub Reach-Contents :
    (size : ℕ) (pool : FramePool) {s : System} → 0 < size → Reach (start size pool) s → Contents s
Reach-Contents size pool h here = start-Contents size pool
Reach-Contents size pool h (later r st) =
    Step-Contents st (Reach-Inv size pool h r) (Reach-Contents size pool h r)

-- In every reachable state, a cache that `get` finds at position p carries the sequence of the group
-- that was reserved p-th, and the highest sequence among the first p groups reserved.
pub get-arrived :
    (size : ℕ) (pool : FramePool) (s : System) (p a : ℕ)
    → 0 < size
    → Reach (start size pool) s
    → (get p s.ring).0 ≡ some a
    → ((s.ring.heap a).seq ≡ s.arrived p) × ((s.ring.heap a).highest_seq ≡ highest s.arrived p)
unfolding get
get-arrived size pool s p a h r found =
    let v = Reach-Inv size pool h r in
    let c = Reach-Contents size pool h r in ground (arith, c.holds a, v.slot (p % s.ring.size) a)

-- What stays the same of the cache at `a` from one state to another: its place, its group, and every
-- frame that it had.
pub record Stays (s t : System) (a : ℕ) : Type 0 where
  pub not_recycled : t.ring.pooled a ≡ false
  pub same_pos : (t.ring.heap a).pos ≡ (s.ring.heap a).pos
  pub same_seq : (t.ring.heap a).seq ≡ (s.ring.heap a).seq
  pub same_frames :
      (i : ℕ) (f : Frame) → (s.ring.heap a).slots i ≡ some f → (t.ring.heap a).slots i ≡ some f

-- What somebody who holds a reference relies on: the cache is in use, its counter is the number of the
-- references, and nobody is about to look whether it was evicted.
record IsKept (s : Racing) (a : ℕ) : Type 0 where
  in_use : s.sys.ring.pooled a ≡ false
  not_released : (s.sys.ring.heap a).released ≡ false
  counted : (s.sys.ring.heap a).ref_count ≡ s.sys.held a
  few : s.sys.held a < 2 ^ 31
  mine : 0 < s.sys.held a
  settled : s.pending a ≡ 0
  past : (i : ℕ) → (s.sys.ring.heap a).count ≤ i → (s.sys.ring.heap a).slots i ≡ none

module _ (s : Racing) (a : ℕ) (v : IsKept s a) where
  step-IsKept : {t : Racing} → RacingStep s t → 0 < t.sys.held a → IsKept t a × Stays s.sys t.sys a
  unfolding reserve get append mark_complete decr_ref drop_count release_evicted
  step-IsKept (whole (reserves b seq free room)) still = (
    record {
      in_use = ground (arith, v.in_use, v.not_released, v.counted, v.few, v.mine, v.settled);
      not_released = ground (arith, v.in_use, v.not_released, v.counted, v.few, v.mine, v.settled);
      counted = ground (arith, v.in_use, v.not_released, v.counted, v.few, v.mine, v.settled);
      few = ground (arith, v.in_use, v.not_released, v.counted, v.few, v.mine, v.settled);
      mine = still;
      settled = ground (arith, v.in_use, v.not_released, v.counted, v.few, v.mine, v.settled);
      past = λ i le.
          ground (arith, v.in_use, v.not_released, v.counted, v.few, v.mine, v.settled, v.past i);
    },
    record {
      not_recycled = ground (arith, v.in_use, v.not_released, v.counted, v.few, v.mine, v.settled);
      same_pos = ground (arith, v.in_use, v.not_released, v.counted, v.few, v.mine, v.settled);
      same_seq = ground (arith, v.in_use, v.not_released, v.counted, v.few, v.mine, v.settled);
      same_frames = λ i f e.
          ground (arith, v.in_use, v.not_released, v.counted, v.few, v.mine, v.settled, v.past i);
    },
  )
  step-IsKept (whole (gets pos b h room)) still = (
    record {
      in_use = ground (arith, v.in_use, v.not_released, v.counted, v.few, v.mine, v.settled);
      not_released = ground (arith, v.in_use, v.not_released, v.counted, v.few, v.mine, v.settled);
      counted = ground (arith, v.in_use, v.not_released, v.counted, v.few, v.mine, v.settled);
      few = ground (arith, v.in_use, v.not_released, v.counted, v.few, v.mine, v.settled);
      mine = still;
      settled = ground (arith, v.in_use, v.not_released, v.counted, v.few, v.mine, v.settled);
      past = λ i le.
          ground (arith, v.in_use, v.not_released, v.counted, v.few, v.mine, v.settled, v.past i);
    },
    record {
      not_recycled = ground (arith, v.in_use, v.not_released, v.counted, v.few, v.mine, v.settled);
      same_pos = ground (arith, v.in_use, v.not_released, v.counted, v.few, v.mine, v.settled);
      same_seq = ground (arith, v.in_use, v.not_released, v.counted, v.few, v.mine, v.settled);
      same_frames = λ i f e.
          ground (arith, v.in_use, v.not_released, v.counted, v.few, v.mine, v.settled, v.past i);
    },
  )
  step-IsKept (whole (appends b g h)) still = (
    record {
      in_use = ground (arith, v.in_use, v.not_released, v.counted, v.few, v.mine, v.settled);
      not_released = ground (arith, v.in_use, v.not_released, v.counted, v.few, v.mine, v.settled);
      counted = ground (arith, v.in_use, v.not_released, v.counted, v.few, v.mine, v.settled);
      few = ground (arith, v.in_use, v.not_released, v.counted, v.few, v.mine, v.settled);
      mine = still;
      settled = ground (arith, v.in_use, v.not_released, v.counted, v.few, v.mine, v.settled);
      past = λ i le.
          ground (arith, v.in_use, v.not_released, v.counted, v.few, v.mine, v.settled, v.past i);
    },
    record {
      not_recycled = ground (arith, v.in_use, v.not_released, v.counted, v.few, v.mine, v.settled);
      same_pos = ground (arith, v.in_use, v.not_released, v.counted, v.few, v.mine, v.settled);
      same_seq = ground (arith, v.in_use, v.not_released, v.counted, v.few, v.mine, v.settled);
      same_frames = λ i f e.
          ground (arith, v.in_use, v.not_released, v.counted, v.few, v.mine, v.settled, v.past i);
    },
  )
  step-IsKept (whole (completes b h)) still = (
    record {
      in_use = ground (arith, v.in_use, v.not_released, v.counted, v.few, v.mine, v.settled);
      not_released = ground (arith, v.in_use, v.not_released, v.counted, v.few, v.mine, v.settled);
      counted = ground (arith, v.in_use, v.not_released, v.counted, v.few, v.mine, v.settled);
      few = ground (arith, v.in_use, v.not_released, v.counted, v.few, v.mine, v.settled);
      mine = still;
      settled = ground (arith, v.in_use, v.not_released, v.counted, v.few, v.mine, v.settled);
      past = λ i le.
          ground (arith, v.in_use, v.not_released, v.counted, v.few, v.mine, v.settled, v.past i);
    },
    record {
      not_recycled = ground (arith, v.in_use, v.not_released, v.counted, v.few, v.mine, v.settled);
      same_pos = ground (arith, v.in_use, v.not_released, v.counted, v.few, v.mine, v.settled);
      same_seq = ground (arith, v.in_use, v.not_released, v.counted, v.few, v.mine, v.settled);
      same_frames = λ i f e.
          ground (arith, v.in_use, v.not_released, v.counted, v.few, v.mine, v.settled, v.past i);
    },
  )
  step-IsKept (whole (drops b h)) still = (
    record {
      in_use = ground (arith, v.in_use, v.not_released, v.counted, v.few, v.mine, v.settled);
      not_released = ground (arith, v.in_use, v.not_released, v.counted, v.few, v.mine, v.settled);
      counted = ground (arith, v.in_use, v.not_released, v.counted, v.few, v.mine, v.settled);
      few = ground (arith, v.in_use, v.not_released, v.counted, v.few, v.mine, v.settled);
      mine = still;
      settled = ground (arith, v.in_use, v.not_released, v.counted, v.few, v.mine, v.settled);
      past = λ i le.
          ground (arith, v.in_use, v.not_released, v.counted, v.few, v.mine, v.settled, v.past i);
    },
    record {
      not_recycled = ground (arith, v.in_use, v.not_released, v.counted, v.few, v.mine, v.settled);
      same_pos = ground (arith, v.in_use, v.not_released, v.counted, v.few, v.mine, v.settled);
      same_seq = ground (arith, v.in_use, v.not_released, v.counted, v.few, v.mine, v.settled);
      same_frames = λ i f e.
          ground (arith, v.in_use, v.not_released, v.counted, v.few, v.mine, v.settled, v.past i);
    },
  )
  step-IsKept (counts b h) still = (
    record {
      in_use = ground (arith, v.in_use, v.not_released, v.counted, v.few, v.mine, v.settled);
      not_released = ground (arith, v.in_use, v.not_released, v.counted, v.few, v.mine, v.settled);
      counted = ground (arith, v.in_use, v.not_released, v.counted, v.few, v.mine, v.settled);
      few = ground (arith, v.in_use, v.not_released, v.counted, v.few, v.mine, v.settled);
      mine = still;
      settled = ground (arith, v.in_use, v.not_released, v.counted, v.few, v.mine, v.settled);
      past = λ i le.
          ground (arith, v.in_use, v.not_released, v.counted, v.few, v.mine, v.settled, v.past i);
    },
    record {
      not_recycled = ground (arith, v.in_use, v.not_released, v.counted, v.few, v.mine, v.settled);
      same_pos = ground (arith, v.in_use, v.not_released, v.counted, v.few, v.mine, v.settled);
      same_seq = ground (arith, v.in_use, v.not_released, v.counted, v.few, v.mine, v.settled);
      same_frames = λ i f e.
          ground (arith, v.in_use, v.not_released, v.counted, v.few, v.mine, v.settled, v.past i);
    },
  )
  step-IsKept (releases b h) still = (
    record {
      in_use = ground (arith, v.in_use, v.not_released, v.counted, v.few, v.mine, v.settled);
      not_released = ground (arith, v.in_use, v.not_released, v.counted, v.few, v.mine, v.settled);
      counted = ground (arith, v.in_use, v.not_released, v.counted, v.few, v.mine, v.settled);
      few = ground (arith, v.in_use, v.not_released, v.counted, v.few, v.mine, v.settled);
      mine = still;
      settled = ground (arith, v.in_use, v.not_released, v.counted, v.few, v.mine, v.settled);
      past = λ i le.
          ground (arith, v.in_use, v.not_released, v.counted, v.few, v.mine, v.settled, v.past i);
    },
    record {
      not_recycled = ground (arith, v.in_use, v.not_released, v.counted, v.few, v.mine, v.settled);
      same_pos = ground (arith, v.in_use, v.not_released, v.counted, v.few, v.mine, v.settled);
      same_seq = ground (arith, v.in_use, v.not_released, v.counted, v.few, v.mine, v.settled);
      same_frames = λ i f e.
          ground (arith, v.in_use, v.not_released, v.counted, v.few, v.mine, v.settled, v.past i);
    },
  )

-- A run of steps through which somebody always holds a reference to the cache at `a`.
pub data Held (a : ℕ) (s : Racing) : Racing → Type 0 where
  held_here : Held a s s
  held_later : {t u : Racing} → Held a s t → RacingStep t u → 0 < u.sys.held a → Held a s u

Stays-trans : (a : ℕ) (s t u : System) → Stays s t a → Stays t u a → Stays s u a
Stays-trans a s t u p q = record {
  not_recycled = q.not_recycled;
  same_pos = q.same_pos ∙ p.same_pos;
  same_seq = q.same_seq ∙ p.same_seq;
  same_frames = λ i f e. q.same_frames i f (p.same_frames i f e);
}

run-IsKept :
    (a : ℕ) (s : Racing) {t : Racing} → IsKept s a → Held a s t → IsKept t a × Stays s.sys t.sys a
run-IsKept a s v held_here = (
  v,
  record { not_recycled = v.in_use; same_pos = refl; same_seq = refl; same_frames = λ i f e. e },
)
run-IsKept a s v (held_later {t} {u} run st still) =
    let (v', stays) = run-IsKept a s v run in
    let (v'', stays') = step-IsKept t a v' st still in
    (v'', Stays-trans a s.sys t.sys u.sys stays stays')

-- From any state that whole operations reach, through any whole operations of anybody and calls of
-- decrRef with others between their two accesses: as long as a reference to a cache is held throughout,
-- the cache is not recycled, stays at its position, stays the same group, and keeps every frame in its
-- slot.
pub held-Stays :
    (size : ℕ) (pool : FramePool) (a : ℕ) (s : System) (t : Racing)
    → 0 < size
    → Reach (start size pool) s
    → 0 < s.held a
    → Held a (quiet s) t
    → Stays s t.sys a
held-Stays size pool a s t h r mine run =
    let v = Reach-Inv size pool h r in
    let c = Reach-Contents size pool h r in
    let used : s.ring.pooled a ≡ false = ground (arith, v.idle a) in
    (run-IsKept a (quiet s)
      (record {
        in_use = used;
        not_released = (v.used a used).not_released;
        counted = (v.used a used).counted;
        few = v.few a;
        mine = mine;
        settled = refl;
        past = (c.filled a).past;
      })
      run).1
