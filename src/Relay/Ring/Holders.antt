-- ===== src/Relay/Ring/Holders.antt =====
-- internal/relay/group_cache.go: what the holders of a reference do, and the invariant of the ring.
use qumo.Common.{ℕ, ◌+◌, ◌%◌, ◌^◌, ◌<◌, ◌≡◌, refl, some, arith, inl}
use qumo.Relay.Cache.{Frame, FramePool, append, mark_complete}
use qumo.Relay.Ring.{get, decr_ref, write}
use qumo.Relay.Ring.Steps.{
  System, start, append_at, getting, dropping, Step, reserves, gets, appends, completes, drops,
  Reach, here, later,
}
use qumo.Relay.Ring.Invariant.{Inv, start-Inv, Keeps, Keeps-Inv}
use qumo.Relay.Ring.Reserve.{reserve-Inv}

module _ (s : System) (v : Inv s) (a : ℕ) where
  get-Keeps :
      (pos : ℕ) → (get pos s.ring).0 ≡ some a → s.held a + 1 < 2 ^ 31 → Keeps s (getting pos a s)
  unfolding get
  get-Keeps pos h room = record {
    same_caches = λ i. ground arith;
    same_size = ground arith;
    same_pos = ground arith;
    same_place = λ b. ground arith;
    same_evicted = λ b. ground arith;
    same_pooled = λ b. ground arith;
    uses = λ b e. ground (arith, v.used b);
    rests = λ b e. ground (arith, v.idle b, v.slot (pos % s.ring.size) b);
    fews = λ b. ground (arith, v.few b);
  }

  append-Keeps : (f : Frame) → 0 < s.held a → Keeps s (record s { ring = append_at a f s.ring })
  unfolding append
  append-Keeps f h = record {
    same_caches = λ i. ground arith;
    same_size = ground arith;
    same_pos = ground arith;
    same_place = λ b. ground arith;
    same_evicted = λ b. ground arith;
    same_pooled = λ b. ground arith;
    uses = λ b e. ground (arith, v.used b);
    rests = λ b e. ground (arith, v.idle b);
    fews = v.few;
  }

  complete-Keeps :
      0 < s.held a → Keeps s (record s { ring = write a (mark_complete (s.ring.heap a)) s.ring })
  unfolding mark_complete
  complete-Keeps h = record {
    same_caches = λ i. refl;
    same_size = refl;
    same_pos = refl;
    same_place = λ b. ground arith;
    same_evicted = λ b. ground arith;
    same_pooled = λ b. inl refl;
    uses = λ b e. ground (arith, v.used b);
    rests = v.idle;
    fews = v.few;
  }

  drop-Keeps : 0 < s.held a → Keeps s (dropping a s)
  unfolding decr_ref
  drop-Keeps h = record {
    same_caches = λ i. ground arith;
    same_size = ground arith;
    same_pos = ground arith;
    same_place = λ b. ground arith;
    same_evicted = λ b. ground arith;
    same_pooled = λ b. ground arith;
    uses = λ b e. ground (arith, v.used b, v.idle a, v.few a);
    rests = λ b e. ground (arith, v.idle b, v.used a, v.few a);
    fews = λ b. ground (arith, v.few b);
  }

-- Every step keeps the invariant of the ring.
pub Step-Inv : {s t : System} → Step s t → Inv s → Inv t
Step-Inv {s} (reserves a seq free room) v = reserve-Inv s v a seq free room
Step-Inv {s} (gets pos a h room) v = Keeps-Inv s _ v (get-Keeps s v a pos h room)
Step-Inv {s} (appends a f h) v = Keeps-Inv s _ v (append-Keeps s v a f h)
Step-Inv {s} (completes a h) v = Keeps-Inv s _ v (complete-Keeps s v a h)
Step-Inv {s} (drops a h) v = Keeps-Inv s _ v (drop-Keeps s v a h)

pub Reach-Inv :
    (size : ℕ) (pool : FramePool) {s : System} → 0 < size → Reach (start size pool) s → Inv s
Reach-Inv size pool h here = start-Inv size pool h
Reach-Inv size pool h (later r st) = Step-Inv st (Reach-Inv size pool h r)
