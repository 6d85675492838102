-- ===== src/Rtmp/Chunk/RoundTrip.antt =====
-- internal/rtmp/conn.go: what writeRawMessage wrote, readMessage reads.
use qumo.Common.{
  ℕ, zero, suc, ◌+◌, ◌-◌, ◌≤◌, ◌<◌, ◌≡◌, ◌≢◌, refl, Bool, false, [], ◌++◌, leb, ◌==◌, min, drop,
  take, if◌then◌else◌, Text, Result, ok, length, length-append, append_assoc, arith, ap, ◌∙◌, inl,
  inr, Bool-cases, Option, none, some, sym, subst,
}
use qumo.Rtmp.Chunk.{ChunkError, RawMessage, Conn}
use qumo.Rtmp.Chunk.Write.{chunk_header, write_chunks}
use qumo.Rtmp.Chunk.Read.{state_of, put_chunk_state, message_of, read_chunk, read_message}
use qumo.Rtmp.Chunk.Headers.{IsMessage, reading}
use qumo.Rtmp.Chunk.Acks.{SameReader, check_ack-SameReader}
use qumo.Rtmp.Chunk.Pieces.{write_chunks_more, write_chunks_last}
use qumo.Rtmp.Chunk.Rounds.{
  take-append-drop, length-take_le, read_payload-piece, Ready, chunk-Starts, read_chunk_of,
}

-- A connection that can read and acknowledge.
pub record IsOpen (c : Conn) : Type 0 where
  pub reads_some : 0 < c.read_chunk_size
  pub writes_some : 0 < c.write_chunk_size
  pub works : c.broken ≡ false

-- What reading on the chunk stream `csid` leaves alone.
pub record Others (csid : ℕ) (c d : Conn) : Type 0 where
  pub others_as : (i : ℕ) → i ≢ csid → d.read_states i ≡ c.read_states i
  pub size_as : d.read_chunk_size ≡ c.read_chunk_size
  pub still : IsOpen d

positive_test : (n : ℕ) → 0 < n → (n == 0) ≡ false
positive_test n h = ground arith

-- The round that completes a message, and one that does not.
abbrev Round :
    ℕ → RawMessage → Conn → Conn → Text → Result ChunkError (Option RawMessage × Conn × Text)
Round left m done d rest = ok (if left == 0 then (some m, done, rest) else (none, d, rest))

module _ (counted : Text → ℕ) (fuel : ℕ) (c done d : Conn) (bs rest : Text) (m : RawMessage) (n : ℕ)
    (round : read_chunk counted c bs ≡ Round n m done d rest) where
  read_message_done : n ≡ 0 → read_message counted (suc fuel) c bs ≡ ok (m, done, rest)
  unfolding read_message
  read_message_done z = rw (round, z) refl

  read_message_more :
      {x : Result ChunkError (RawMessage × Conn × Text)}
      → 0 < n
      → read_message counted fuel d rest ≡ x
      → read_message counted (suc fuel) c bs ≡ x
  unfolding read_message
  read_message_more pos e = let undone = positive_test n pos in rw (round, undone) e

module _ (counted : Text → ℕ) (csid : ℕ) (msg : RawMessage) (v : IsMessage msg) (low : 2 ≤ csid)
    (high : csid < 65_600) where
  -- One chunk, with the piece of the payload that it carries.
  abbrev Reads : Conn → Text → Text → Text → Type 0
  Reads c part bs rest =
      (d : Conn) × (read_chunk counted c bs
        ≡ ok (
            if length msg.payload - length part == 0
            then (
              some (message_of (reading msg part)),
              put_chunk_state csid (record (reading msg part) { payload = []; capacity = 0 }) d,
              rest,
            )
            else (none, d, rest)))
      × SameReader (put_chunk_state csid (reading msg part) c) d

  chunk_read :
      (first : Bool) (part piece rest : Text) (c : Conn)
      → IsOpen c
      → Ready first csid msg part c
      → length part + length piece ≤ length msg.payload
      → min (length msg.payload - length part) c.read_chunk_size ≡ length piece
      → Reads c
          (part ++ piece)
          ((chunk_header csid msg (length msg.payload) first ++ piece) ++ rest)
          rest
  chunk_read first part piece rest c o ready le n =
      let next = put_chunk_state csid (reading msg (part ++ piece)) c in
      let (d, acked, same) = check_ack-SameReader (counted rest) next o.writes_some o.works in
      let apart = append_assoc (chunk_header csid msg (length msg.payload) first) piece rest in
      let round =
        read_chunk_of counted c d
          (chunk_header csid msg (length msg.payload) first ++ (piece ++ rest)) (piece ++ rest) rest
          csid (reading msg part) (reading msg (part ++ piece))
          (chunk-Starts first csid msg part (piece ++ rest) c v low high ready)
          (read_payload-piece c.read_chunk_size msg part piece rest le n) acked in
      (d, ap (read_chunk counted c) apart ∙ round, same)

  Others-of :
      (c d : Conn) (part : Text)
      → IsOpen c
      → SameReader (put_chunk_state csid (reading msg part) c) d
      → Others csid c d × (state_of csid d ≡ reading msg part)
  Others-of c d part o same = (
    record {
      others_as = λ i apart. ground (arith, same.same_states);
      size_as = same.same_size;
      still = record {
        reads_some = let a = o.reads_some in let b = same.same_size in omega arith;
        writes_some = let a = o.writes_some in let b = same.same_write in omega arith;
        works = same.same_broken ∙ o.works;
      };
    },
    ground (arith, same.same_states),
  )

  -- A message that is read back from `bs`, with `rest` left.
  abbrev Back : ℕ → Conn → Text → Text → Type 0
  Back fuel c bs rest =
      (d : Conn) × (read_message counted fuel c bs ≡ ok (msg, d, rest)) × Others csid c d

  -- The last chunk.
  last-Back :
      (fuel : ℕ) (first : Bool) (part piece rest : Text) (c : Conn)
      → IsOpen c
      → Ready first csid msg part c
      → part ++ piece ≡ msg.payload
      → length piece ≤ c.read_chunk_size
      → Back (suc fuel) c ((chunk_header csid msg (length msg.payload) first ++ piece) ++ rest) rest
  last-Back fuel first part piece rest c o ready whole few =
      let sum = length-append part piece in
      let size : length (part ++ piece) ≡ length msg.payload = ap length whole in
      let (d, round, same) =
        chunk_read first part piece rest c o ready (omega arith) (omega arith) in
      let (others, at) = Others-of c d (part ++ piece) o same in
      let done =
        put_chunk_state csid (record (reading msg (part ++ piece)) { payload = []; capacity = 0 })
          d in
      (
        done,
        read_message_done counted fuel c done d
              ((chunk_header csid msg (length msg.payload) first ++ piece) ++ rest) rest
              (message_of (reading msg (part ++ piece)))
              (length msg.payload - length (part ++ piece)) round (omega arith)
            ∙ ap (λ (t : Text). ok (message_of (reading msg t), done, rest)) whole,
        record {
          others_as = λ i apart. ground (arith, others.others_as i apart);
          size_as = others.size_as;
          still = record {
            reads_some = others.still.reads_some;
            writes_some = others.still.writes_some;
            works = others.still.works;
          };
        },
      )

  Others-trans : (a b c : Conn) → Others csid a b → Others csid b c → Others csid a c
  Others-trans a b c p q = record {
    others_as = λ i apart. q.others_as i apart ∙ p.others_as i apart;
    size_as = q.size_as ∙ p.size_as;
    still = q.still;
  }

  -- A chunk that is not the last, and then the others.
  more-Back :
      (fuel : ℕ) (first : Bool) (part piece more rest : Text) (c : Conn)
      → IsOpen c
      → Ready first csid msg part c
      → length part + length piece < length msg.payload
      → min (length msg.payload - length part) c.read_chunk_size ≡ length piece
      → ((d : Conn)
          → IsOpen d
          → d.read_chunk_size ≡ c.read_chunk_size
          → Ready false csid msg (part ++ piece) d
          → Back fuel d (more ++ rest) rest)
      → Back
          (suc fuel)
          c
          ((chunk_header csid msg (length msg.payload) first ++ piece) ++ (more ++ rest))
          rest
  more-Back fuel first part piece more rest c o ready lt n go =
      let sum = length-append part piece in
      let (d, round, same) = chunk_read first part piece (more ++ rest) c o ready (omega arith) n in
      let (others, at) = Others-of c d (part ++ piece) o same in
      let (e, back, after) = go d others.still others.size_as (at, omega arith) in
      (
        e,
        read_message_more counted fuel c
            (put_chunk_state csid
              (record (reading msg (part ++ piece)) { payload = []; capacity = 0 }) d)
            d ((chunk_header csid msg (length msg.payload) first ++ piece) ++ (more ++ rest))
            (more ++ rest) (message_of (reading msg (part ++ piece)))
            (length msg.payload - length (part ++ piece)) round (omega arith) back,
        Others-trans c d e others after,
      )

  pub read-Back :
      (fuel : ℕ) (first : Bool) (part left bytes rest : Text) (c : Conn)
      → IsOpen c
      → Ready first csid msg part c
      → part ++ left ≡ msg.payload
      → write_chunks fuel csid msg c.read_chunk_size (length msg.payload) first left ≡ ok bytes
      → Back fuel c (bytes ++ rest) rest
  unfolding write_chunks
  read-Back zero first part left bytes rest c o ready whole e = cc
  read-Back (suc fuel) first part left bytes rest c o ready whole e =
      let n = min c.read_chunk_size (length left) in
      let header = chunk_header csid msg (length msg.payload) first in
      let sum = length-append part left in
      let all : length (part ++ left) ≡ length msg.payload = ap length whole in
      elim (Bool-cases (leb (length left) n)) [
        | inl a ↦
            subst (λ bs. Back (suc fuel) c (bs ++ rest) rest)
              (sym (write_chunks_last csid msg fuel first left bytes c.read_chunk_size e a))
              (last-Back fuel first part left rest c o ready whole (ground arith))
        | inr a ↦
            let some_left = o.reads_some in
            let few : n < length left = ground arith in
            let cut = length-take_le n left (omega arith) in
            let (more, sent, glued) =
              write_chunks_more csid msg fuel first left bytes c.read_chunk_size e a in
            let joined : bytes ++ rest ≡ (header ++ take n left) ++ (more ++ rest) =
              ap (λ (bs : Text). bs ++ rest) glued
              ∙ append_assoc (header ++ take n left) more rest in
            let split : (part ++ take n left) ++ drop n left ≡ msg.payload =
              append_assoc part (take n left) (drop n left)
              ∙ ap (λ (bs : Text). part ++ bs) (take-append-drop n left)
              ∙ whole in
            subst (λ bs. Back (suc fuel) c bs rest) (sym joined)
              (more-Back fuel first part (take n left) more rest c o ready (omega arith)
                (omega arith)
                λ d able size ready'.
                  read-Back fuel false (part ++ take n left) (drop n left) more rest d able ready'
                    split (rw size sent))
      ]
