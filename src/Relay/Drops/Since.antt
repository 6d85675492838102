-- ===== src/Relay/Drops/Since.antt =====
-- internal/relay/drop_distributor.go: what since reads, against the drops ever recorded.
use qumo.Common.{
  ℕ, zero, suc, ◌+◌, ◌-◌, ◌%◌, ◌^◌, ◌≤◌, ◌<◌, ◌≡◌, refl, false, ◌&&◌, List, [], ◌∷◌, leb, ltb, ◌==◌,
  arith, inl, inr, Bool-cases, ap, update, subst, sym,
}
use qumo.Relay.Ring.Invariant.{same_mod}
use qumo.Relay.Drops.{
  SubscribeDrop, DropDistributor, inc64, new_drop_distributor, record_drop, held_drops, since,
}

-- A distributor on which the drops `history 1`, `history 2` and so on were recorded.
pub data Records (size : ℕ) (history : ℕ → SubscribeDrop) : DropDistributor → Type 0 where
  nothing_yet : Records size history (new_drop_distributor size)
  records :
      {d : DropDistributor}
      → Records size history d
      → d.pos + 2 < 2 ^ 64
      → Records size history (record_drop (history (d.pos + 1)) d)

-- `history pos`, and the ones after it.
abbrev pub listed : (ℕ → SubscribeDrop) → ℕ → ℕ → List SubscribeDrop
listed history pos zero = []
listed history pos (suc count) = history pos ∷ listed history (pos + 1) count

-- The array holds the last `size` drops.
record IsRecord (history : ℕ → SubscribeDrop) (d : DropDistributor) : Type 0 where
  sized : 0 < d.size
  small : d.pos + 1 < 2 ^ 64
  holds : (p : ℕ) → 0 < p → p ≤ d.pos → d.pos < p + d.size → d.drops ((p - 1) % d.size) ≡ history p

-- A slot of the array after the drop number `n + 1` was recorded.
slot_of :
    (history : ℕ → SubscribeDrop) (drops : ℕ → SubscribeDrop) (size n p : ℕ)
    → 0 < size
    → 0 < p
    → p ≤ n + 1
    → n + 1 < p + size
    → (p ≤ n → drops ((p - 1) % size) ≡ history p)
    → update drops (n % size) (history (n + 1)) ((p - 1) % size) ≡ history p
slot_of history drops size n p sized pos le near old = elim (Bool-cases (p == n + 1)) [
  | inl e ↦
      let now : p ≡ n + 1 = ground arith in
      let same : (p - 1) % size ≡ n % size = ap (λ k. k % size) (omega arith) in
      rw (same, now) (ground arith)
  | inr e ↦
      let apart : (n % size == (p - 1) % size) ≡ false =
        ground (arith, same_mod size (p - 1) n sized (omega arith) (omega arith)) in
      ground (arith, old (ground arith))
]

record_drop-IsRecord :
    (history : ℕ → SubscribeDrop) (d : DropDistributor)
    → IsRecord history d
    → d.pos + 2 < 2 ^ 64
    → IsRecord history (record_drop (history (d.pos + 1)) d)
unfolding record_drop
record_drop-IsRecord history d v room =
    let step : inc64 d.pos ≡ d.pos + 1 = omega arith in
    let back : inc64 d.pos - 1 ≡ d.pos = omega arith in
    record {
      sized = v.sized;
      small = omega arith;
      holds = λ p pos le near.
          subst
            (λ k. update d.drops (k % d.size) (history (d.pos + 1)) ((p - 1) % d.size) ≡ history p)
            (sym back)
            (slot_of history d.drops d.size d.pos p v.sized pos (omega arith) (omega arith)
              λ old. v.holds p pos old (omega arith));
    }

Records-IsRecord :
    (size : ℕ) (history : ℕ → SubscribeDrop) {d : DropDistributor}
    → Records size history d
    → IsRecord history d
unfolding new_drop_distributor
Records-IsRecord size history nothing_yet = record {
  sized = ground arith;
  small = omega arith;
  holds = λ p pos le near. absurd (omega arith);
}
Records-IsRecord size history (records {d} r room) =
    record_drop-IsRecord history d (Records-IsRecord size history r) room

held_drops-listed :
    (history : ℕ → SubscribeDrop) (d : DropDistributor) (count pos : ℕ)
    → IsRecord history d
    → 0 < pos
    → pos + count ≤ d.pos + 1
    → d.pos < pos + d.size
    → held_drops count pos d ≡ listed history pos count
unfolding held_drops
held_drops-listed history d zero pos v h le near = refl
held_drops-listed history d (suc count) pos v h le near =
    let small = v.small in
    let step : inc64 pos ≡ pos + 1 = omega arith in
    let rest =
      held_drops-listed history d count (pos + 1) v (omega arith) (omega arith) (omega arith) in
    ground (arith, v.holds pos h (omega arith) near)

-- A reader at a position before the last drop is given, in order and one by one, the drops recorded
-- after its position that are among the last `size`, the position of the last drop, and the number
-- of those that were overwritten before it could read them.
pub since-recent :
    (size : ℕ) (history : ℕ → SubscribeDrop) (d : DropDistributor) (p : ℕ)
    → Records size history d
    → p < d.pos
    → since p d ≡ (
      listed history (p + 1 + (d.pos - d.size - p)) (d.pos - p - (d.pos - d.size - p)),
      d.pos,
      d.pos - d.size - p,
    )
unfolding since
since-recent size history d p r lt =
    let v = Records-IsRecord size history r in
    let small = v.small in
    let sized = v.sized in
    let first : inc64 p ≡ p + 1 = omega arith in
    let still : inc64 (d.pos - d.size) ≡ d.pos - d.size + 1 = omega arith in
    let lost = d.pos - d.size - p in
    let read =
      held_drops-listed history d (d.pos - p - lost) (p + 1 + lost) v (omega arith) (omega arith)
        (omega arith) in
    elim (Bool-cases (ltb d.size d.pos && leb (p + 1) (d.pos - d.size))) [
      | inl e ↦
          let from : inc64 (d.pos - d.size) ≡ p + 1 + lost = ground arith in
          let count : d.pos + 1 - inc64 (d.pos - d.size) ≡ d.pos - p - lost = ground arith in
          let gone : inc64 (d.pos - d.size) - inc64 p ≡ lost = ground arith in ground (arith, read)
      | inr e ↦
          let none : lost ≡ 0 = ground arith in
          let from : inc64 p ≡ p + 1 + lost = omega arith in
          let count : d.pos + 1 - inc64 p ≡ d.pos - p - lost = omega arith in ground (arith, read)
    ]
