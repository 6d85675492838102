-- ===== src/Relay/Ring/Steps.antt =====
-- internal/relay/group_cache.go, who calls what: the ingest goroutine reserves a cache, its filler
-- appends, completes and lets go, and the egress goroutines get a cache by position and let go.
-- `held a` counts the references that they hold to the cache at the address `a`, and `arrived p` is
-- the sequence of the group that was reserved at position `p`: both are kept by the model alone.
use qumo.Common.{ℕ, ◌+◌, ◌-◌, ◌^◌, ◌<◌, ◌≡◌, true, some, update}
use qumo.Relay.Cache.{Frame, FramePool, append, mark_complete}
use qumo.Relay.Ring.{GroupRing, new_group_ring, reserve, get, decr_ref, write}

pub record System : Type 0 where
  pub ring : GroupRing
  pub held : ℕ → ℕ
  pub arrived : ℕ → ℕ

abbrev pub start : ℕ → FramePool → System
start size pool = record { ring = new_group_ring size pool; held = λ _. 0; arrived = λ _. 0 }

-- One cache's append, with the ring around it.
abbrev pub append_at : ℕ → Frame → GroupRing → GroupRing
append_at a f ring =
    let (gc, pool) = append f (ring.heap a) ring.pool in record (write a gc ring) { pool = pool }

abbrev pub reserving : ℕ → ℕ → System → System
reserving a seq s = record {
  ring = reserve a seq s.ring;
  held = update s.held a 1;
  arrived = update s.arrived (s.ring.pos + 1) seq;
}

abbrev pub getting : ℕ → ℕ → System → System
getting pos a s = record s { ring = (get pos s.ring).1; held = update s.held a (s.held a + 1) }

abbrev pub dropping : ℕ → System → System
dropping a s = record s { ring = decr_ref a s.ring; held = update s.held a (s.held a - 1) }

-- Each operation as one step. A call with a cache comes from somebody who holds a reference to it.
-- Of a cache fewer than 2 ^ 31 references are held, and fewer than 2 ^ 64 groups are reserved.
pub data Step (s : System) : System → Type 0 where
  reserves :
      (a seq : ℕ) → s.ring.pooled a ≡ true → s.ring.pos + 1 < 2 ^ 64 → Step s (reserving a seq s)
  gets :
      (pos a : ℕ) → (get pos s.ring).0 ≡ some a → s.held a + 1 < 2 ^ 31 → Step s (getting pos a s)
  appends : (a : ℕ) (f : Frame) → 0 < s.held a → Step s (record s { ring = append_at a f s.ring })
  completes :
      (a : ℕ)
      → 0 < s.held a
      → Step s (record s { ring = write a (mark_complete (s.ring.heap a)) s.ring })
  drops : (a : ℕ) → 0 < s.held a → Step s (dropping a s)

pub data Reach (s : System) : System → Type 0 where
  here : Reach s s
  later : {t u : System} → Reach s t → Step t u → Reach s u
