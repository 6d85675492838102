-- ===== src/Rtmp/Chunk/Write.antt =====
-- internal/rtmp/conn.go, writeRawMessage and sendAck.
use qumo.Common.{
  ℕ, zero, suc, ◌%◌, ◌^◌, min, Bool, true, false, [], ◌∷◌, ◌++◌, leb, if◌then◌else◌, Text, Result,
  ok, err, ◌>>=◌, length, take, drop,
}
use qumo.Rtmp.Chunk.{
  ChunkError, closed, out_of_fuel, RawMessage, Conn, chunk_timestamp_max, csid_control,
  message_type_ack, be24, be32, le32, encode_basic,
}

-- What stands in front of the first chunk's payload, and of each later one's.
abbrev pub extended_of : ℕ → Text
extended_of ts = if leb chunk_timestamp_max ts then be32 ts else []

abbrev pub message_header : RawMessage → ℕ → Text
message_header msg msg_len =
    be24 (if leb chunk_timestamp_max msg.timestamp then chunk_timestamp_max else msg.timestamp)
    ++ (be24 msg_len ++ (msg.type_id % 256 ∷ le32 msg.stream_id))

unfoldable pub chunk_header : ℕ → RawMessage → ℕ → Bool → Text
unfolding encode_basic
chunk_header csid msg msg_len true =
    encode_basic 0 csid ++ (message_header msg msg_len ++ extended_of msg.timestamp)
chunk_header csid msg msg_len false = encode_basic 3 csid ++ extended_of msg.timestamp

-- The loop, of which `left` is `payload[offset:]`; each round but the last writes `size` bytes of it.
unfoldable pub write_chunks : ℕ → ℕ → RawMessage → ℕ → ℕ → Bool → Text → Result ChunkError Text
unfolding chunk_header
write_chunks zero csid msg size msg_len first left = err out_of_fuel
write_chunks (suc fuel) csid msg size msg_len first left =
    let n = min size (length left) in
    let rest = write_chunks fuel csid msg size msg_len false (drop n left) in
    let chunk = chunk_header csid msg msg_len first ++ take n left in
    if leb (length left) n then ok chunk else (rest >>= λ more. ok (chunk ++ more))

-- The fuel is enough when the chunk size is not 0.
unfoldable pub write_raw_message : ℕ → RawMessage → Conn → Result ChunkError Conn
unfolding write_chunks
write_raw_message csid msg c =
    let msg_len = length msg.payload % 2 ^ 32 in
    write_chunks (suc msg_len) csid msg c.write_chunk_size msg_len true (take msg_len msg.payload)
    >>= λ bytes. if c.broken then err closed else ok (record c { written = c.written ++ bytes })

unfoldable pub send_ack : ℕ → Conn → Result ChunkError Conn
unfolding write_raw_message
send_ack seq c =
    write_raw_message csid_control
      (record { type_id = message_type_ack; stream_id = 0; timestamp = 0; payload = be32 seq }) c
