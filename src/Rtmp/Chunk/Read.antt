-- ===== src/Rtmp/Chunk/Read.antt =====
-- internal/rtmp/conn.go, readMessage and checkAck.
use qumo.Common.{
  ℕ, zero, suc, ◌+◌, ◌-◌, ◌%◌, ◌^◌, min, Bool, true, false, Option, none, some, [], ◌++◌, leb, ltb,
  ◌==◌, if◌then◌else◌, Text, Result, ok, err, ◌>>=◌, length, update,
}
use qumo.Rtmp.Chunk.{
  ChunkError, message_too_large, out_of_range, out_of_fuel, RawMessage, ChunkReadState, new_state,
  Conn, max_message_size, chunk_timestamp_max, at, be24_at, le32_at, read_full, decode_basic,
  decode_extended,
}
use qumo.Rtmp.Chunk.Write.{send_ack}

-- `state.payload = make([]byte, 0, state.messageLength)`, and what is left of the message.
abbrev pub start_message : ChunkReadState → ChunkReadState
start_message s = record s {
  payload = [];
  capacity = s.message_length;
  remaining = s.message_length;
}

abbrev pub checked_start : ChunkReadState → Text → Result ChunkError (ChunkReadState × Text)
checked_start s bs =
    if ltb max_message_size s.message_length
    then err message_too_large
    else ok (start_message s, bs)

-- A timestamp of three bytes, and its extended one where these are all ones.
abbrev pub read_timestamp : ℕ → Text → Result ChunkError (ℕ × Bool × Text)
read_timestamp ts bs =
    if ts == chunk_timestamp_max
    then (decode_extended bs >>= λ (ext, rest). ok (ext, true, rest))
    else ok (ts, false, bs)

abbrev pub add_delta : ℕ → Bool → ChunkReadState → ChunkReadState
add_delta td extended s = record s {
  has_extended = extended;
  timestamp_delta = td;
  timestamp = (s.timestamp + td) % 2 ^ 32;
}

-- The fields of the 11 bytes, and of the 7.
abbrev pub put_full_header : Text → ℕ → Bool → ChunkReadState → ChunkReadState
put_full_header hdr ts extended s = record s {
  message_length = be24_at hdr 3;
  message_type_id = at hdr 6;
  message_stream_id = le32_at hdr 7;
  timestamp = ts;
  has_extended = extended;
  timestamp_delta = 0;
}

abbrev pub put_same_stream : Text → ℕ → Bool → ChunkReadState → ChunkReadState
put_same_stream hdr td extended s =
    add_delta td extended (record s { message_length = be24_at hdr 3; message_type_id = at hdr 6 })

unfoldable pub read_full_header : ChunkReadState → Text → Result ChunkError (ChunkReadState × Text)
unfolding read_full decode_extended
read_full_header s bs = read_full 11 bs >>= λ (hdr, rest).
    read_timestamp (be24_at hdr 0) rest >>= λ (ts, extended, rest').
    checked_start (put_full_header hdr ts extended s) rest'

unfoldable pub read_same_stream : ChunkReadState → Text → Result ChunkError (ChunkReadState × Text)
unfolding read_full decode_extended
read_same_stream s bs = read_full 7 bs >>= λ (hdr, rest).
    read_timestamp (be24_at hdr 0) rest >>= λ (td, extended, rest').
    checked_start (put_same_stream hdr td extended s) rest'

unfoldable pub read_same_length : ChunkReadState → Text → Result ChunkError (ChunkReadState × Text)
unfolding read_full decode_extended
read_same_length s bs = read_full 3 bs >>= λ (hdr, rest).
    read_timestamp (be24_at hdr 0) rest >>= λ (td, extended, rest').
    ok (start_message (add_delta td extended s), rest')

unfoldable pub read_no_header : ChunkReadState → Text → Result ChunkError (ChunkReadState × Text)
unfolding decode_extended
read_no_header s bs =
    (if s.has_extended then (decode_extended bs >>= λ (ext, rest). ok rest) else ok bs) >>= λ rest.
    ok (
      (if s.remaining == 0
          then start_message (record s { timestamp = (s.timestamp + s.timestamp_delta) % 2 ^ 32 })
          else s),
      rest,
    )

-- A chunk type is two bits.
unfoldable pub read_header : ℕ → ChunkReadState → Text → Result ChunkError (ChunkReadState × Text)
unfolding read_full_header read_same_stream read_same_length read_no_header
read_header fmt s bs =
    if fmt == 0
    then read_full_header s bs
    else if fmt == 1
    then read_same_stream s bs
    else if fmt == 2
    then read_same_length s bs
    else read_no_header s bs

unfoldable pub read_payload : ℕ → ChunkReadState → Text → Result ChunkError (ChunkReadState × Text)
unfolding read_full
read_payload size s bs =
    let to_read = min s.remaining size in
    if to_read == 0
    then ok (s, bs)
    else if ltb s.capacity (length s.payload + to_read)
    then err out_of_range
    else (read_full to_read bs >>= λ (part, rest).
        ok (record s { payload = s.payload ++ part; remaining = s.remaining - to_read }, rest))

-- The read counter of the transport, a uint64, is `bytes_read` at the load.
unfoldable pub check_ack : ℕ → Conn → Result ChunkError Conn
unfolding send_ack
check_ack bytes_read c =
    if c.window_ack_size == 0
    then ok c
    else if leb c.window_ack_size ((bytes_read + 2 ^ 64 - c.last_acked) % 2 ^ 64)
    then send_ack (bytes_read % 2 ^ 32) (record c { last_acked = bytes_read })
    else ok c

abbrev pub state_of : ℕ → Conn → ChunkReadState
state_of csid c = elim (c.read_states csid) [ none ↦ new_state | some s ↦ s ]

abbrev pub put_chunk_state : ℕ → ChunkReadState → Conn → Conn
put_chunk_state csid s c = record c { read_states = update c.read_states csid (some s) }

abbrev pub message_of : ChunkReadState → RawMessage
message_of s = record {
  type_id = s.message_type_id;
  stream_id = s.message_stream_id;
  timestamp = s.timestamp;
  payload = s.payload;
}

-- The connection reads ahead of the chunks: `counted rest` is the read counter when `rest` is yet to
-- be read by the chunks.
module _ (counted : Text → ℕ) where
  -- One round of the loop of readMessage: the message, when it is complete.
  unfoldable pub read_chunk : Conn → Text → Result ChunkError (Option RawMessage × Conn × Text)
  unfolding decode_basic read_header read_payload check_ack
  read_chunk c bs = decode_basic bs >>= λ (fmt, csid, rest).
      read_header fmt (state_of csid c) rest >>= λ (s, rest').
      read_payload c.read_chunk_size s rest' >>= λ (s', rest'').
      check_ack (counted rest'') (put_chunk_state csid s' c) >>= λ c'. ok (
        if s'.remaining == 0
        then (
          some (message_of s'),
          put_chunk_state csid (record s' { payload = []; capacity = 0 }) c',
          rest'',
        )
        else (none, c', rest''))

  unfoldable pub read_message : ℕ → Conn → Text → Result ChunkError (RawMessage × Conn × Text)
  unfolding read_chunk
  read_message zero c bs = err out_of_fuel
  read_message (suc fuel) c bs = read_chunk c bs >>= λ (found, c', rest).
      let more = read_message fuel c' rest in
      elim found [ none ↦ more | some msg ↦ ok (msg, c', rest) ]
