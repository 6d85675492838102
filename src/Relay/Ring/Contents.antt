-- ===== src/Relay/Ring/Contents.antt =====
-- internal/relay/group_cache.go: what a cache holds while it is in use.
use native.Mathlib.Numerals.{add-one}
use qumo.Common.{
  ℕ, zero, suc, ◌+◌, ◌^◌, ◌≤◌, ◌<◌, ◌≡◌, refl, true, false, update, arith, ltb, ◌==◌, if◌then◌else◌,
  Bool-cases, inl, inr,
}
use qumo.Relay.Cache.{Frame, FramePool, append, mark_complete}
use qumo.Relay.Cache.Slots.{IsFilled, clear_slots-IsFilled, append-IsFilled}
use qumo.Relay.Ring.{new_group_ring, reserve, get, decr_ref, write}
use qumo.Relay.Ring.Steps.{System, start, append_at, reserving, getting, dropping}
use qumo.Relay.Ring.Invariant.{Inv}

-- The highest of f 1, ..., f n.
pub highest : (ℕ → ℕ) → ℕ → ℕ
highest f zero = 0
highest f (suc n) = let before = highest f n in if ltb before (f (suc n)) then f (suc n) else before

highest-update : (f : ℕ → ℕ) (n m x : ℕ) → n < m → highest (update f m x) n ≡ highest f n
unfolding highest
highest-update f zero m x lt = refl
highest-update f (suc n) m x lt = ground (arith, highest-update f n m x)

highest-next :
    (f : ℕ → ℕ) (n x : ℕ)
    → highest (update f (n + 1) x) (n + 1) ≡ (if ltb (highest f n) x then x else highest f n)
unfolding highest
highest-next f n x = rw add-one (ground (arith, highest-update f n (suc n) x))

-- The cache at `a` is the group that was reserved at its position.
pub record Holds (s : System) (a : ℕ) : Type 0 where
  pub reserved : (s.ring.heap a).pos ≤ s.ring.pos
  pub sequence : (s.ring.heap a).seq ≡ s.arrived (s.ring.heap a).pos
  pub up_to : (s.ring.heap a).highest_seq ≡ highest s.arrived (s.ring.heap a).pos

pub record Contents (s : System) : Type 0 where
  pub highest_yet : s.ring.max_seq ≡ highest s.arrived s.ring.pos
  pub holds : (a : ℕ) → s.ring.pooled a ≡ false → Holds s a
  pub filled : (a : ℕ) → IsFilled (s.ring.heap a)

pub start-Contents : (size : ℕ) (pool : FramePool) → Contents (start size pool)
unfolding new_group_ring highest
start-Contents size pool = record {
  highest_yet = refl;
  holds = λ a e. cc;
  filled = λ a. record {
    capped = omega arith;
    past = λ i le. refl;
    stored = λ i lt. absurd (omega arith);
  };
}

module _ (s : System) (v : Inv s) (c : Contents s) where
  module _ (a seq : ℕ) (free : s.ring.pooled a ≡ true) (room : s.ring.pos + 1 < 2 ^ 64) where
    reserve-Holds :
        (b : ℕ) → (reserving a seq s).ring.pooled b ≡ false → Holds (reserving a seq s) b
    unfolding reserve
    reserve-Holds b e = ground (
      arith,
      c.holds b,
      c.highest_yet,
      highest-next s.arrived s.ring.pos seq,
      highest-update s.arrived (s.ring.heap b).pos (s.ring.pos + 1) seq,
    )

    reserve-IsFilled : (b : ℕ) → IsFilled ((reserving a seq s).ring.heap b)
    unfolding reserve
    reserve-IsFilled b = record {
      capped = ground (arith, (c.filled b).capped);
      past = λ i le. ground (arith, (c.filled b).past i, clear_slots-IsFilled _ (c.filled b) i);
      stored = λ i lt. ground (arith, (c.filled b).stored i);
    }

    pub reserve-Contents : Contents (reserving a seq s)
    reserve-Contents = record {
      highest_yet =
          unfold reserve in ground (arith, c.highest_yet, highest-next s.arrived s.ring.pos seq);
      holds = reserve-Holds;
      filled = reserve-IsFilled;
    }

  pub get-Contents : (pos a : ℕ) → Contents (getting pos a s)
  unfolding get
  get-Contents pos a = record {
    highest_yet = ground (arith, c.highest_yet);
    holds = λ b e. ground (arith, c.holds b);
    filled = λ b. record {
      capped = ground (arith, (c.filled b).capped);
      past = λ i le. ground (arith, (c.filled b).past i);
      stored = λ i lt. ground (arith, (c.filled b).stored i);
    };
  }

  pub drop-Contents : (a : ℕ) → Contents (dropping a s)
  unfolding decr_ref
  drop-Contents a = record {
    highest_yet = ground (arith, c.highest_yet);
    holds = λ b e. ground (arith, c.holds b);
    filled = λ b. record {
      capped = ground (arith, (c.filled b).capped);
      past = λ i le. ground (arith, (c.filled b).past i, clear_slots-IsFilled _ (c.filled b) i);
      stored = λ i lt. ground (arith, (c.filled b).stored i);
    };
  }

  pub complete-Contents :
      (a : ℕ) → Contents (record s { ring = write a (mark_complete (s.ring.heap a)) s.ring })
  unfolding mark_complete
  complete-Contents a = record {
    highest_yet = c.highest_yet;
    holds = λ b e. ground (arith, c.holds b);
    filled = λ b. record {
      capped = ground (arith, (c.filled b).capped);
      past = λ i le. ground (arith, (c.filled b).past i);
      stored = λ i lt. ground (arith, (c.filled b).stored i);
    };
  }

  pub append-Contents : (a : ℕ) (f : Frame) → Contents (record s { ring = append_at a f s.ring })
  append-Contents a f = record {
    highest_yet = unfold append in ground (arith, c.highest_yet);
    holds = λ b e. unfold append in ground (arith, c.holds b);
    filled = λ b. elim (Bool-cases (a == b)) [
      | inl e ↦ rw e (append-IsFilled f (s.ring.heap a) s.ring.pool (c.filled a))
      | inr e ↦ rw e (c.filled b)
    ];
  }
