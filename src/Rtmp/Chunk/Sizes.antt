-- ===== src/Rtmp/Chunk/Sizes.antt =====
-- internal/rtmp/conn.go: a chunk size that one connection sets, as handleConnect does, and the other
-- takes.
use qumo.Common.{
  ℕ, suc, ◌%◌, ◌^◌, ◌≤◌, ◌<◌, ◌≡◌, refl, true, false, [], ◌++◌, Text, ok, length, arith, ltb,
}
use qumo.Rtmp.Chunk.{RawMessage, Conn, be32, be32_at, read_full, csid_control}
use qumo.Rtmp.Chunk.Write.{write_raw_message}
use qumo.Rtmp.Chunk.Read.{read_message}
use qumo.Rtmp.Chunk.Headers.{IsMessage}
use qumo.Rtmp.Chunk.Acks.{write_chunks_total}
use qumo.Rtmp.Chunk.Pieces.{take_all}
use qumo.Rtmp.Chunk.RoundTrip.{IsOpen, read-Back}
use qumo.Rtmp.Chunk.Sent.{write_raw_message_of}
use qumo.Rtmp.Chunk.Control.{
  control_message, message_type_set_chunk_size, send_set_chunk_size, set_chunk_size,
  handle_control_message,
}

-- The message with a chunk size.
abbrev pub size_message : ℕ → RawMessage
size_message size = control_message message_type_set_chunk_size (be32 (size % 2 ^ 31))

size_message-IsMessage : (size : ℕ) → IsMessage (size_message size)
size_message-IsMessage size = record {
  type_fits = omega arith;
  stream_fits = omega arith;
  timestamp_fits = omega arith;
  size_fits = omega arith;
}

be32_at-be32 : (n : ℕ) → n < 2 ^ 32 → be32_at (be32 n) 0 ≡ n
be32_at-be32 n h = omega arith

size_taken :
    (size : ℕ) (c : Conn)
    → 1 ≤ size
    → size < 2 ^ 31
    → handle_control_message (size_message size) c ≡ ok (record c { read_chunk_size = size })
unfolding handle_control_message set_chunk_size read_full
size_taken size c low high =
    let back : be32_at (be32 (size % 2 ^ 31)) 0 % 2 ^ 31 ≡ size = omega arith in
    let some_size : ltb size 1 ≡ false = ground arith in rw (back, some_size) refl

-- A connection sends a chunk size from 1 to 2 ^ 31 - 1, takes it for what it writes, and sends a message
-- of less than 2 ^ 24 bytes whose fields fit, on a chunk stream from 2 to 65599 and over a transport that
-- works. A peer whose read chunk size was the writer's chunk size, whatever its chunk streams are in the
-- middle of, reads the size, takes it with handleControlMessage, and reads the message back as it was
-- sent; what comes after it is left.
pub resized_read :
    (counted : Text → ℕ) (size csid : ℕ) (msg : RawMessage) (w c : Conn) (rest : Text)
    → 1 ≤ size
    → size < 2 ^ 31
    → IsMessage msg
    → 2 ≤ csid
    → csid < 65_600
    → w.write_chunk_size ≡ c.read_chunk_size
    → w.broken ≡ false
    → IsOpen c
    → (bytes : Text) × (more : Text) × (d : Conn) × (e : Conn) × (send_set_chunk_size size w
        ≡ ok (record w { written = w.written ++ bytes }))
      × (write_raw_message csid msg
            (record w { written = w.written ++ bytes; write_chunk_size = size })
          ≡ ok (record w { written = (w.written ++ bytes) ++ more; write_chunk_size = size }))
      × (read_message counted 5 c (bytes ++ (more ++ rest))
          ≡ ok (size_message size, d, more ++ rest))
      × (handle_control_message (size_message size) d ≡ ok (record d { read_chunk_size = size }))
      × (read_message counted
            (suc (length msg.payload))
            (record d { read_chunk_size = size })
            (more ++ rest)
          ≡ ok (msg, e, rest))
resized_read counted size csid msg w c rest low high v above below same works o =
    let sized = size_message size in
    let n = length msg.payload in
    let fits = v.size_fits in
    let (bytes, sent) =
      write_chunks_total 5 csid_control sized c.read_chunk_size 4 true sized.payload o.reads_some
        (omega arith) in
    let (more, sent') =
      write_chunks_total (suc n) csid msg size n true msg.payload low (omega arith) in
    let (d, back, others) =
      read-Back counted csid_control sized (size_message-IsMessage size) (omega arith) (omega arith)
        5 true [] sized.payload bytes (more ++ rest) c o refl refl sent in
    let resized : Conn = record d { read_chunk_size = size } in
    let able : IsOpen resized = record {
      reads_some = low;
      writes_some = others.still.writes_some;
      works = others.still.works;
    } in
    let (e, back', others') =
      read-Back counted csid msg v above below (suc n) true [] msg.payload more rest resized able
        refl refl sent' in
    let grown : Conn = record w { written = w.written ++ bytes; write_chunk_size = size } in
    (
      bytes,
      more,
      d,
      e,
      write_raw_message_of csid_control sized w 4 bytes works (omega arith) refl (rw same sent),
      write_raw_message_of csid msg grown n more works (omega arith)
          (take_all n msg.payload (omega arith)) sent',
      back,
      size_taken size d low high,
      back',
    )
