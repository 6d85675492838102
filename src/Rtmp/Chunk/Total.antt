-- ===== src/Rtmp/Chunk/Total.antt =====
-- internal/rtmp/stream.go and internal/rtmp/conn.go: how reading a header's bytes ends.
use qumo.Common.{
  ℕ, zero, suc, ◌+◌, ◌%◌, ◌^◌, ◌≤◌, ◌<◌, ◌≡◌, refl, [], ◌∷◌, leb, ◌==◌, drop, take, Text, Result,
  ok, err, ◌>>=◌, length, arith, All, inl, inr, Bool-cases, if_either, ◌⊎◌,
}
use qumo.Rtmp.Chunk.Acks.{length-drop}
use qumo.Rtmp.Chunk.Rounds.{length-take_le}
use qumo.Rtmp.Chunk.{
  ChunkError, eof, unexpected_eof, closed, at, be24_at, read_full, decode_basic, decode_extended,
}

-- The end of the input in front of a chunk or within one, and a transport that is closed.
abbrev pub Ordinary : ChunkError → Type 0
Ordinary e = (e ≡ eof) ⊎ ((e ≡ unexpected_eof) ⊎ (e ≡ closed))

-- A step ends with a value of which `P` holds, or an ordinary error.
abbrev pub Ends {ℓ} : {A : Type ℓ} → (A → Type 0) → Result ChunkError A → Type 0
Ends P (ok a) = P a
Ends P (err e) = Ordinary e

pub Ends->>= :
    {A B : Type 0} (P : A → Type 0) (Q : B → Type 0) (r : Result ChunkError A)
    (k : A → Result ChunkError B)
    → Ends P r
    → ((a : A) → P a → Ends Q (k a))
    → Ends Q (r >>= k)
Ends->>= P Q (ok a) k h f = f a h
Ends->>= P Q (err e) k h f = h

pub Ends-weaken :
    {A : Type 0} (P Q : A → Type 0) (r : Result ChunkError A)
    → ((a : A) → P a → Q a)
    → Ends P r
    → Ends Q r
Ends-weaken P Q (ok a) f h = f a h
Ends-weaken P Q (err e) f h = h

abbrev pub AreBytes : Text → Type 0
AreBytes bs = All (λ (b : ℕ). b < 256) bs

take-AreBytes : (n : ℕ) (bs : Text) → AreBytes bs → AreBytes (take n bs)
take-AreBytes zero bs h = tt
take-AreBytes (suc n) [] h = tt
take-AreBytes (suc n) (b ∷ bs) h = (h.0, take-AreBytes n bs h.1)

drop-AreBytes : (n : ℕ) (bs : Text) → AreBytes bs → AreBytes (drop n bs)
drop-AreBytes zero bs h = h
drop-AreBytes (suc n) [] h = tt
drop-AreBytes (suc n) (b ∷ bs) h = drop-AreBytes n bs h.1

at-byte : (bs : Text) (i : ℕ) → AreBytes bs → at bs i < 256
at-byte [] i h = omega arith
at-byte (b ∷ bs) zero h = h.0
at-byte (b ∷ bs) (suc i) h = at-byte bs i h.1

pub be24_at-small : (bs : Text) (i : ℕ) → AreBytes bs → be24_at bs i < 2 ^ 24
be24_at-small bs i h =
    let a = at-byte bs i h in
    let b = at-byte bs (i + 1) h in let c = at-byte bs (i + 2) h in omega arith

-- What is left after reading: bytes, and at least `n` fewer of them.
abbrev pub Left : ℕ → Text → Text → Type 0
Left n bs rest = AreBytes rest × (length rest + n ≤ length bs)

pub read_full-Ends :
    (n : ℕ) (bs : Text)
    → AreBytes bs
    → Ends (λ (x : Text × Text). AreBytes x.0 × (length x.0 ≡ n) × Left n bs x.1) (read_full n bs)
unfolding read_full
read_full-Ends n bs h = elim (Bool-cases (leb n (length bs))) [
  | inl e ↦
      let less = length-drop n bs in
      let cut = length-take_le n bs (ground arith) in
      rw e (take-AreBytes n bs h, cut, (drop-AreBytes n bs h, ground arith))
  | inr e ↦ elim (Bool-cases (length bs == 0)) [
    | inl f ↦ rw (e, f) (inl refl)
    | inr f ↦ rw (e, f) (inr (inl refl))
  ]
]

pub decode_extended-Ends :
    (bs : Text) → AreBytes bs → Ends (λ (x : ℕ × Text). Left 0 bs x.1) (decode_extended bs)
unfolding decode_extended
decode_extended-Ends bs h =
    Ends->>= _ _ (read_full 4 bs) _ (read_full-Ends 4 bs h) λ x p. (p.2.0, omega arith)

pub decode_basic-Ends :
    (bs : Text) → AreBytes bs → Ends (λ (x : ℕ × ℕ × Text). Left 1 bs x.2) (decode_basic bs)
unfolding decode_basic
decode_basic-Ends bs h = Ends->>= _ _ (read_full 1 bs) _ (read_full-Ends 1 bs h) λ x p.
    if_either (Ends (λ (x : ℕ × ℕ × Text). Left 1 bs x.2)) (at x.0 0 % 64 == 0) _ _
      (Ends->>= _ _ (read_full 1 x.1) _ (read_full-Ends 1 x.1 p.2.0)
        λ y q. (q.2.0, (let a = p.2.1 in let b = q.2.1 in omega arith)))
      (if_either (Ends (λ (x : ℕ × ℕ × Text). Left 1 bs x.2)) (at x.0 0 % 64 == 1) _ _
        (Ends->>= _ _ (read_full 2 x.1) _ (read_full-Ends 2 x.1 p.2.0)
          λ y q. (q.2.0, (let a = p.2.1 in let b = q.2.1 in omega arith)))
        p.2)
