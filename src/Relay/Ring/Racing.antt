-- ===== src/Relay/Ring/Racing.antt =====
-- internal/relay/group_cache.go, decrRef: `refCount.Add(-1)` and `evicted.Load()` as steps of their own,
-- with the other operations in any order between them.
use qumo.Common.{ℕ, ◌+◌, ◌-◌, ◌<◌, ◌==◌, if◌then◌else◌, update}
use qumo.Relay.Ring.{drop_count, release_evicted}
use qumo.Relay.Ring.Steps.{System, Step}

-- `pending a` counts the goroutines that have brought the count of the cache at `a` to 0, and have
-- not yet looked at its flag `evicted`.
pub record Racing : Type 0 where
  pub sys : System
  pub pending : ℕ → ℕ

abbrev pub counting : ℕ → Racing → Racing
counting a s =
    let ring = drop_count a s.sys.ring in
    record {
      sys = record s.sys { ring = ring; held = update s.sys.held a (s.sys.held a - 1) };
      pending =
          update s.pending a
            (if (ring.heap a).ref_count == 0 then s.pending a + 1 else s.pending a);
    }

abbrev pub releasing : ℕ → Racing → Racing
releasing a s = record {
  sys = record s.sys { ring = release_evicted a s.sys.ring };
  pending = update s.pending a (s.pending a - 1);
}

-- The steps of the ring, and decrRef's two halves apart.
pub data RacingStep (s : Racing) : Racing → Type 0 where
  whole : {t : System} → Step s.sys t → RacingStep s (record s { sys = t })
  counts : (a : ℕ) → 0 < s.sys.held a → RacingStep s (counting a s)
  releases : (a : ℕ) → 0 < s.pending a → RacingStep s (releasing a s)

pub data RacingReach (s : Racing) : Racing → Type 0 where
  race_here : RacingReach s s
  race_later : {t u : Racing} → RacingReach s t → RacingStep t u → RacingReach s u

abbrev pub quiet : System → Racing
quiet s = record { sys = s; pending = λ _. 0 }
