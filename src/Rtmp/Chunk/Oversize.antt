-- ===== src/Rtmp/Chunk/Oversize.antt =====
-- internal/rtmp/conn.go: messages longer than the length that a chunk header can carry.
use qumo.Common.{ℕ, ◌^◌, ◌≤◌, ◌<◌, ◌≡◌, ◌≢◌, false, Text, ok, length, arith, subst}
use qumo.Rtmp.Chunk.{RawMessage, Conn}
use qumo.Rtmp.Chunk.Write.{write_raw_message}
use qumo.Rtmp.Chunk.Read.{read_message}
use qumo.Rtmp.Chunk.Acks.{write_raw_message-SameReader}
use qumo.Rtmp.Chunk.Total.{Ends, AreBytes}
use qumo.Rtmp.Chunk.Bounded.{IsReader}
use qumo.Rtmp.Chunk.Ended.{Message, read_message-Ends}

-- A message of 2 ^ 24 bytes or more is written with no error over a transport that works, although
-- no connection ever reads it, whatever bytes it is given.
pub oversize_written :
    (counted : Text → ℕ) (csid : ℕ) (msg : RawMessage) (w c d : Conn) (fuel : ℕ) (bs rest : Text)
    → 2 ^ 24 ≤ length msg.payload
    → 0 < w.write_chunk_size
    → w.broken ≡ false
    → IsReader c
    → AreBytes bs
    → length bs < fuel
    → ((w' : Conn) × (write_raw_message csid msg w ≡ ok w'))
      × (read_message counted fuel c bs ≢ ok (msg, d, rest))
oversize_written counted csid msg w c d fuel bs rest long pos works v h lt =
    let (w', sent, same) = write_raw_message-SameReader csid msg w pos works in
    (
      (w', sent),
      λ read.
          let ends = read_message-Ends counted fuel c bs v h lt in
          let left = subst (Ends (Message counted bs)) read ends in
          let short = left.0 in omega arith,
    )
