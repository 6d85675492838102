-- ===== src/Rtmp/Chunk/Sent.antt =====
-- internal/rtmp/conn.go: a message from one connection to another.
use qumo.Common.{
  ℕ, suc, ◌%◌, ◌^◌, ◌≤◌, ◌<◌, ◌≡◌, refl, true, false, [], ◌++◌, Text, ok, length, arith, take,
}
use qumo.Rtmp.Chunk.{RawMessage, Conn}
use qumo.Rtmp.Chunk.Write.{write_chunks, write_raw_message}
use qumo.Rtmp.Chunk.Read.{read_message}
use qumo.Rtmp.Chunk.Headers.{IsMessage}
use qumo.Rtmp.Chunk.Acks.{write_chunks_total}
use qumo.Rtmp.Chunk.Pieces.{take_all}
use qumo.Rtmp.Chunk.RoundTrip.{IsOpen, Others, read-Back}

pub write_raw_message_of :
    (csid : ℕ) (msg : RawMessage) (w : Conn) (n : ℕ) (bytes : Text)
    → w.broken ≡ false
    → length msg.payload % 2 ^ 32 ≡ n
    → take n msg.payload ≡ msg.payload
    → write_chunks (suc n) csid msg w.write_chunk_size n true msg.payload ≡ ok bytes
    → write_raw_message csid msg w ≡ ok (record w { written = w.written ++ bytes })
unfolding write_raw_message
write_raw_message_of csid msg w n bytes works len whole sent = rw (len, whole, sent, works) refl

-- A message of less than 2 ^ 24 bytes whose fields fit, sent on a chunk stream from 2 to 65599 over a
-- transport that works: writeRawMessage writes some bytes, and a connection whose read chunk size is
-- the writer's chunk size, whatever its chunk streams are in the middle of, reads them back as the
-- same message within a round for each byte of the payload and one more, leaves what comes after
-- them, and leaves its other chunk streams as they were.
pub read-write :
    (counted : Text → ℕ) (csid : ℕ) (msg : RawMessage) (w c : Conn) (rest : Text)
    → IsMessage msg
    → 2 ≤ csid
    → csid < 65_600
    → w.write_chunk_size ≡ c.read_chunk_size
    → w.broken ≡ false
    → IsOpen c
    → (bytes : Text) × (d : Conn) × (write_raw_message csid msg w
        ≡ ok (record w { written = w.written ++ bytes }))
      × (read_message counted (suc (length msg.payload)) c (bytes ++ rest) ≡ ok (msg, d, rest))
      × Others csid c d
read-write counted csid msg w c rest v low high same works o =
    let size = v.size_fits in
    let some_size = o.reads_some in
    let n = length msg.payload in
    let (bytes, sent) =
      write_chunks_total (suc n) csid msg c.read_chunk_size n true msg.payload some_size
        (omega arith) in
    let (d, back, others) =
      read-Back counted csid msg v low high (suc n) true [] msg.payload bytes rest c o refl refl
        sent in
    (
      bytes,
      d,
      write_raw_message_of csid msg w n bytes works (omega arith)
          (take_all n msg.payload (omega arith)) (rw same sent),
      back,
      others,
    )
