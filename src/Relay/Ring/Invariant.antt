-- ===== src/Relay/Ring/Invariant.antt =====
-- internal/relay/group_cache.go: what holds of the ring between two operations.
use qumo.Common.{ℕ, ◌+◌, ◌%◌, ◌^◌, ◌≤◌, ◌<◌, ◌≡◌, refl, true, false, some, arith, ◌⊎◌, ◌∙◌, ap}
use native.Mathlib.Nat.{div-add-mod}
use qumo.Relay.Cache.{FramePool}
use qumo.Relay.Ring.{GroupRing, new_group_ring}
use qumo.Relay.Ring.Steps.{System, start}

-- The cache at `a` stands in the array at index `i`.
pub record InSlot (r : GroupRing) (i a : ℕ) : Type 0 where
  pub index : (r.heap a).pos % r.size ≡ i
  pub positive : 0 < (r.heap a).pos
  pub old : (r.heap a).pos ≤ r.pos
  pub recent : r.pos < (r.heap a).pos + r.size
  pub not_evicted : (r.heap a).evicted ≡ false
  pub not_pooled : r.pooled a ≡ false

-- The cache at `a` is in use: in the array, or held by somebody.
pub record InUse (r : GroupRing) (held : ℕ → ℕ) (a : ℕ) : Type 0 where
  pub counted : (r.heap a).ref_count ≡ held a
  pub not_released : (r.heap a).released ≡ false
  pub evicted_held : (r.heap a).evicted ≡ true → 0 < held a
  pub in_array : (r.heap a).evicted ≡ false → r.caches ((r.heap a).pos % r.size) ≡ some a

pub record Inv (s : System) : Type 0 where
  pub sized : 0 < s.ring.size
  pub bounded : s.ring.pos < 2 ^ 64
  pub slot : (i a : ℕ) → s.ring.caches i ≡ some a → InSlot s.ring i a
  pub full :
      (p : ℕ)
      → 0 < p
      → p ≤ s.ring.pos
      → s.ring.pos < p + s.ring.size
      → (a : ℕ) × (s.ring.caches (p % s.ring.size) ≡ some a) × ((s.ring.heap a).pos ≡ p)
  pub used : (a : ℕ) → s.ring.pooled a ≡ false → InUse s.ring s.held a
  pub idle : (a : ℕ) → s.ring.pooled a ≡ true → s.held a ≡ 0
  pub few : (a : ℕ) → s.held a < 2 ^ 31

-- Two numbers less than `n` apart with the same remainder are the same.
pub same_mod : (n p q : ℕ) → 0 < n → p ≤ q → q < p + n → p % n ≡ q % n → p ≡ q
same_mod n p q h a b e = grind (arith, div-add-mod p n, div-add-mod q n)

pub mod_shift : (n p : ℕ) → 0 < n → (p + n) % n ≡ p % n
mod_shift n p h = grind arith

pub start-Inv : (size : ℕ) (pool : FramePool) → 0 < size → Inv (start size pool)
unfolding new_group_ring
start-Inv size pool h = record {
  sized = h;
  bounded = omega arith;
  slot = λ i a e. cc;
  full = λ p pos le near. absurd (omega arith);
  used = λ a e. cc;
  idle = λ a e. refl;
  few = λ a. omega arith;
}

-- A holder's operation keeps the array and, of each cache, its position and its flag `evicted`; it
-- may put a cache back into the pool only when that has been evicted.
pub record Keeps (s t : System) : Type 0 where
  pub same_caches : (i : ℕ) → t.ring.caches i ≡ s.ring.caches i
  pub same_size : t.ring.size ≡ s.ring.size
  pub same_pos : t.ring.pos ≡ s.ring.pos
  pub same_place : (b : ℕ) → (t.ring.heap b).pos ≡ (s.ring.heap b).pos
  pub same_evicted : (b : ℕ) → (t.ring.heap b).evicted ≡ (s.ring.heap b).evicted
  pub same_pooled : (b : ℕ) → (t.ring.pooled b ≡ s.ring.pooled b) ⊎ ((s.ring.heap b).evicted ≡ true)
  pub uses : (b : ℕ) → t.ring.pooled b ≡ false → InUse t.ring t.held b
  pub rests : (b : ℕ) → t.ring.pooled b ≡ true → t.held b ≡ 0
  pub fews : (b : ℕ) → t.held b < 2 ^ 31

pub Keeps-Inv : (s t : System) → Inv s → Keeps s t → Inv t
Keeps-Inv s t v k = record {
  sized = omega (arith, v.sized, k.same_size);
  bounded = omega (arith, v.bounded, k.same_pos);
  slot = λ i b e. ground (
    arith,
    k.same_caches i,
    v.slot i b,
    k.same_size,
    k.same_pos,
    k.same_place b,
    k.same_evicted b,
    k.same_pooled b,
  );
  full = λ p pos le near.
      let (b, at, is) =
        v.full p pos (omega (arith, k.same_pos)) (omega (arith, k.same_pos, k.same_size)) in
      (b, k.same_caches _ ∙ ap (λ n. s.ring.caches (p % n)) k.same_size ∙ at, k.same_place b ∙ is);
  used = k.uses;
  idle = k.rests;
  few = k.fews;
}
