-- ===== src/Rtmp/Chunk/Pieces.antt =====
-- internal/rtmp/conn.go, writeRawMessage: the pieces of a payload that its rounds write.
use qumo.Common.{
  ℕ, zero, suc, ◌≤◌, ◌≡◌, refl, Bool, true, false, [], ◌∷◌, ◌++◌, leb, min, drop, take, Text, ok,
  ◌>>=◌, >>=-eq-ok, length, arith, ap,
}
use qumo.Rtmp.Chunk.{RawMessage}
use qumo.Rtmp.Chunk.Write.{chunk_header, write_chunks}

pub take_all : (n : ℕ) (bs : Text) → length bs ≤ n → take n bs ≡ bs
take_all zero [] h = refl
take_all zero (b ∷ bs) h = absurd (omega arith)
take_all (suc n) [] h = refl
take_all (suc n) (b ∷ bs) h = ap (λ l. b ∷ l) (take_all n bs (omega arith))

module _ (csid : ℕ) (msg : RawMessage) where
  -- What is written after a chunk that is not the last.
  pub write_chunks_more :
      (fuel : ℕ) (first : Bool) (left bytes : Text) (size : ℕ)
      → write_chunks (suc fuel) csid msg size (length msg.payload) first left ≡ ok bytes
      → leb (length left) (min size (length left)) ≡ false
      → (more : Text) × (write_chunks fuel csid msg size
            (length msg.payload)
            false
            (drop (min size (length left)) left)
          ≡ ok more)
        × (bytes
            ≡ (chunk_header csid msg (length msg.payload) first
                ++ take (min size (length left)) left)
              ++ more)
  unfolding write_chunks
  write_chunks_more fuel first left bytes size e a =
      let n = min size (length left) in
      let chunk = chunk_header csid msg (length msg.payload) first ++ take n left in
      let rest = write_chunks fuel csid msg size (length msg.payload) false (drop n left) in
      let same : (rest >>= λ more. ok (chunk ++ more)) ≡ ok bytes = ground arith in
      let (more, sent, glued) = >>=-eq-ok rest (λ (more : Text). ok (chunk ++ more)) same in
      (more, sent, cc)

  -- What is written of the last chunk.
  pub write_chunks_last :
      (fuel : ℕ) (first : Bool) (left bytes : Text) (size : ℕ)
      → write_chunks (suc fuel) csid msg size (length msg.payload) first left ≡ ok bytes
      → leb (length left) (min size (length left)) ≡ true
      → bytes ≡ chunk_header csid msg (length msg.payload) first ++ left
  unfolding write_chunks
  write_chunks_last fuel first left bytes size e a =
      let n = min size (length left) in let whole = take_all n left (ground arith) in ground arith
