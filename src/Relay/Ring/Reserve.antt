-- ===== src/Relay/Ring/Reserve.antt =====
-- internal/relay/group_cache.go, reserve: the invariant of the ring.
use qumo.Common.{
  ℕ, ◌+◌, ◌%◌, ◌^◌, ◌≤◌, ◌<◌, ◌≡◌, true, false, some, ◌==◌, if◌then◌else◌, arith, Bool-cases, inl,
  inr,
}
use qumo.Relay.Ring.{reserve}
use qumo.Relay.Ring.Steps.{System, reserving}
use qumo.Relay.Ring.Invariant.{InSlot, InUse, Inv, same_mod, mod_shift}

module _ (s : System) (v : Inv s) (a seq : ℕ) (free : s.ring.pooled a ≡ true)
    (room : s.ring.pos + 1 < 2 ^ 64) where
  abbrev t : System
  t = reserving a seq s

  -- What reserve does to the array, to the positions and to the ring's own.
  caches-reserve :
      (i : ℕ)
      → t.ring.caches i ≡ (if (s.ring.pos + 1) % s.ring.size == i then some a else s.ring.caches i)
  unfolding reserve
  caches-reserve i = ground arith

  pos_of-reserve :
      (b : ℕ) → (t.ring.heap b).pos ≡ (if a == b then s.ring.pos + 1 else (s.ring.heap b).pos)
  unfolding reserve
  pos_of-reserve b = ground arith

  pos-reserve : (t.ring.pos ≡ s.ring.pos + 1) × (t.ring.size ≡ s.ring.size)
  unfolding reserve
  pos-reserve = ground arith

  slot-reserve : (i b : ℕ) → t.ring.caches i ≡ some b → InSlot t.ring i b
  unfolding reserve
  slot-reserve i b e = ground (
    arith,
    v.slot i b,
    v.slot ((s.ring.pos + 1) % s.ring.size) b,
    v.sized,
    mod_shift s.ring.size (s.ring.heap b).pos,
  )

  full-reserve :
      (p : ℕ)
      → 0 < p
      → p ≤ s.ring.pos + 1
      → s.ring.pos + 1 < p + s.ring.size
      → (b : ℕ) × (t.ring.caches (p % s.ring.size) ≡ some b) × ((t.ring.heap b).pos ≡ p)
  full-reserve p pos le near = elim (Bool-cases (p == s.ring.pos + 1)) [
    | inl e ↦
        (a, ground (arith, caches-reserve (p % s.ring.size)), ground (arith, pos_of-reserve a))
    | inr e ↦
        let (b, at, is) = v.full p pos (ground arith) (ground arith) in
        (
          b,
          ground (
            arith,
            caches-reserve (p % s.ring.size),
            same_mod s.ring.size p (s.ring.pos + 1) v.sized,
          ),
          ground (arith, pos_of-reserve b, v.slot (p % s.ring.size) b at),
        )
  ]

  used-reserve : (b : ℕ) → t.ring.pooled b ≡ false → InUse t.ring t.held b
  unfolding reserve
  used-reserve b e = ground (arith, v.used b, v.sized)

  idle-reserve : (b : ℕ) → t.ring.pooled b ≡ true → t.held b ≡ 0
  unfolding reserve
  idle-reserve b e = ground (arith, v.idle b, v.used b)

  few-reserve : (b : ℕ) → t.held b < 2 ^ 31
  few-reserve b = ground (arith, v.few b)

  pub reserve-Inv : Inv (reserving a seq s)
  reserve-Inv = record {
    sized = omega (arith, v.sized, pos-reserve);
    bounded = omega (arith, room, pos-reserve);
    slot = slot-reserve;
    full = λ p pos le near.
        rw (pos-reserve.1)
          (full-reserve p pos (omega (arith, pos-reserve)) (omega (arith, pos-reserve)));
    used = used-reserve;
    idle = idle-reserve;
    few = few-reserve;
  }
