-- ===== src/Rtmp/Chunk.antt =====
-- internal/rtmp/stream.go and internal/rtmp/conn.go, the chunks of messages. A byte is a number below
-- 256. What is yet to be read of the transport is a list of bytes, which ends where the peer closed.
pub mod Write
pub mod Read
pub mod Headers
pub mod Acks
pub mod Rounds
pub mod Pieces
pub mod RoundTrip
pub mod Sent
pub mod Total
pub mod Bounded
pub mod Ended
pub mod Oversize
pub mod Control
pub mod Commands
pub mod Sizes
mod Examples
use qumo.Common.{
  ℕ, zero, suc, ◌+◌, ◌-◌, ◌*◌, ◌/◌, ◌%◌, ◌^◌, min, Bool, true, false, not, Option, none, some, [],
  ◌∷◌, ◌++◌, ltb, leb, ◌==◌, if◌then◌else◌, Text, Result, ok, err, ◌>>=◌, length, take, drop,
  get_elem?, update,
}

-- io.EOF, io.ErrUnexpectedEOF, ErrMessageTooLarge, ErrInvalidChunkSize, a slice past its capacity, which panics, and a
-- transport that takes no more bytes; `out_of_fuel` is none of the source's.
pub data ChunkError : Type 0 where
  eof unexpected_eof message_too_large invalid_chunk_size out_of_range closed out_of_fuel :
      ChunkError

abbrev pub default_window_ack_size : ℕ
default_window_ack_size = 2_500_000

abbrev pub default_chunk_size : ℕ
default_chunk_size = 128

abbrev pub max_message_size : ℕ
max_message_size = 16 * 1024 * 1024

abbrev pub chunk_timestamp_max : ℕ
chunk_timestamp_max = 16_777_215

abbrev pub csid_control : ℕ
csid_control = 2

abbrev pub message_type_ack : ℕ
message_type_ack = 3

pub record RawMessage : Type 0 where
  pub type_id : ℕ
  pub stream_id : ℕ
  pub timestamp : ℕ
  pub payload : Text

-- `capacity` is that of the slice `payload`.
pub record ChunkReadState : Type 0 where
  pub timestamp : ℕ
  pub timestamp_delta : ℕ
  pub message_length : ℕ
  pub message_type_id : ℕ
  pub message_stream_id : ℕ
  pub has_extended : Bool
  pub payload : Text
  pub capacity : ℕ
  pub remaining : ℕ

abbrev pub new_state : ChunkReadState
new_state = record {
  timestamp = 0;
  timestamp_delta = 0;
  message_length = 0;
  message_type_id = 0;
  message_stream_id = 0;
  has_extended = false;
  payload = [];
  capacity = 0;
  remaining = 0;
}

-- `written` is what was flushed to the transport, and `broken` whether it takes no more.
pub record Conn : Type 0 where
  pub read_chunk_size : ℕ
  pub write_chunk_size : ℕ
  pub read_states : ℕ → Option ChunkReadState
  pub window_ack_size : ℕ
  pub last_acked : ℕ
  pub peer_acked_bytes : ℕ
  pub written : Text
  pub broken : Bool

abbrev pub new_conn : Conn
new_conn = record {
  read_chunk_size = default_chunk_size;
  write_chunk_size = default_chunk_size;
  read_states = λ i. none;
  window_ack_size = default_window_ack_size;
  last_acked = 0;
  peer_acked_bytes = 0;
  written = [];
  broken = false;
}

-- io.ReadFull.
unfoldable pub read_full : ℕ → Text → Result ChunkError (Text × Text)
read_full n bs =
    if leb n (length bs)
    then ok (take n bs, drop n bs)
    else if length bs == 0
    then err eof
    else err unexpected_eof

abbrev pub at : Text → ℕ → ℕ
at bs i = elim (get_elem? bs i) [ none ↦ 0 | some b ↦ b ]

abbrev pub be24 : ℕ → Text
be24 n = n / 65_536 % 256 ∷ n / 256 % 256 ∷ n % 256 ∷ []

abbrev pub be32 : ℕ → Text
be32 n = n / 16_777_216 % 256 ∷ be24 n

abbrev pub le32 : ℕ → Text
le32 n = n % 256 ∷ n / 256 % 256 ∷ n / 65_536 % 256 ∷ n / 16_777_216 % 256 ∷ []

abbrev pub be24_at : Text → ℕ → ℕ
be24_at bs i = at bs i * 65_536 + at bs (i + 1) * 256 + at bs (i + 2)

abbrev pub be32_at : Text → ℕ → ℕ
be32_at bs i = at bs i * 16_777_216 + be24_at bs (i + 1)

abbrev pub le32_at : Text → ℕ → ℕ
le32_at bs i = at bs i + at bs (i + 1) * 256 + at bs (i + 2) * 65_536 + at bs (i + 3) * 16_777_216

-- chunkBasicHeader: the chunk type and the chunk stream.
unfoldable pub encode_basic : ℕ → ℕ → Text
encode_basic fmt csid =
    if leb csid 63
    then ((fmt * 64 % 256 + csid) ∷ [])
    else if leb csid 319
    then (fmt * 64 % 256 ∷ (csid - 64) ∷ [])
    else ((fmt * 64 % 256 + 1) ∷ (csid - 64) % 256 ∷ (csid - 64) / 256 % 256 ∷ [])

unfoldable pub decode_basic : Text → Result ChunkError (ℕ × ℕ × Text)
unfolding read_full
decode_basic bs = read_full 1 bs >>= λ (b, rest).
    let fmt = at b 0 / 64 in
    let part = at b 0 % 64 in
    if part == 0
    then (read_full 1 rest >>= λ (c, rest'). ok (fmt, at c 0 + 64, rest'))
    else if part == 1
    then (read_full 2 rest >>= λ (c, rest'). ok (fmt, at c 0 + at c 1 * 256 + 64, rest'))
    else ok (fmt, part, rest)

unfoldable pub decode_extended : Text → Result ChunkError (ℕ × Text)
unfolding read_full
decode_extended bs = read_full 4 bs >>= λ (b, rest). ok (be32_at b 0, rest)
