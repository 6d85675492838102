-- ===== src/Rtmp/Chunk/Headers.antt =====
-- internal/rtmp/stream.go and internal/rtmp/conn.go: what is read of the headers that were written.
use qumo.Common.{
  ℕ, ◌+◌, ◌-◌, ◌*◌, ◌/◌, ◌%◌, ◌^◌, ◌≤◌, ◌<◌, ◌≡◌, [], ◌++◌, leb, if◌then◌else◌, Text, ok, length,
  length-append, take-append_self, drop-append_self, arith, inl, inr, Bool-cases,
}
use qumo.Rtmp.Chunk.{
  RawMessage, ChunkReadState, chunk_timestamp_max, at, be32, be24_at, le32_at, read_full,
  encode_basic, decode_basic, decode_extended,
}
use qumo.Rtmp.Chunk.Write.{extended_of, message_header}
use qumo.Rtmp.Chunk.Read.{read_timestamp, read_full_header, read_no_header}

pub read_full-append : (a rest : Text) → read_full (length a) (a ++ rest) ≡ ok (a, rest)
unfolding read_full
read_full-append a rest =
    ground (arith, length-append a rest, take-append_self a rest, drop-append_self a rest)

-- The chunk streams that three bytes reach; 0 and 1 mark the longer forms.
pub decode_basic-encode_basic :
    (fmt csid : ℕ) (rest : Text)
    → fmt < 4
    → 2 ≤ csid
    → csid < 65_600
    → decode_basic (encode_basic fmt csid ++ rest) ≡ ok (fmt, csid, rest)
unfolding decode_basic encode_basic read_full
decode_basic-encode_basic fmt csid rest h low high = elim (Bool-cases (leb csid 63)) [
  | inl a ↦ ground arith
  | inr a ↦ elim (Bool-cases (leb csid 319)) [ inl b ↦ ground arith | inr b ↦ ground arith ]
]

pub decode_extended-be32 :
    (n : ℕ) (rest : Text) → n < 2 ^ 32 → decode_extended (be32 n ++ rest) ≡ ok (n, rest)
unfolding decode_extended read_full
decode_extended-be32 n rest h =
    let same : n / 16_777_216 % 256 * 16_777_216
          + (n / 65_536 % 256 * 65_536 + n / 256 % 256 * 256 + n % 256)
        ≡ n =
      omega arith in
    ground arith

be24_back : (n : ℕ) → n < 2 ^ 24 → n / 65_536 % 256 * 65_536 + n / 256 % 256 * 256 + n % 256 ≡ n
be24_back n h = omega arith

le32_back :
    (n : ℕ)
    → n < 2 ^ 32
    → n % 256 + n / 256 % 256 * 256 + n / 65_536 % 256 * 65_536 + n / 16_777_216 % 256 * 16_777_216
      ≡ n
le32_back n h = omega arith

-- A message that can be sent: its fields fit their bytes.
pub record IsMessage (msg : RawMessage) : Type 0 where
  pub type_fits : msg.type_id < 256
  pub stream_fits : msg.stream_id < 2 ^ 32
  pub timestamp_fits : msg.timestamp < 2 ^ 32
  pub size_fits : length msg.payload < 2 ^ 24

-- The state of a chunk stream when `part` of the message was read.
abbrev pub reading : RawMessage → Text → ChunkReadState
reading msg part = record {
  timestamp = msg.timestamp;
  timestamp_delta = 0;
  message_length = length msg.payload;
  message_type_id = msg.type_id;
  message_stream_id = msg.stream_id;
  has_extended = leb chunk_timestamp_max msg.timestamp;
  payload = part;
  capacity = length msg.payload;
  remaining = length msg.payload - length part;
}

-- The three bytes of the timestamp.
abbrev stamp : RawMessage → ℕ
stamp msg = if leb chunk_timestamp_max msg.timestamp then chunk_timestamp_max else msg.timestamp

read_timestamp-stamp :
    (msg : RawMessage) (rest : Text)
    → IsMessage msg
    → read_timestamp (stamp msg) (extended_of msg.timestamp ++ rest)
      ≡ ok (msg.timestamp, leb chunk_timestamp_max msg.timestamp, rest)
read_timestamp-stamp msg rest v = elim (Bool-cases (leb chunk_timestamp_max msg.timestamp)) [
  | inl e ↦ rw e (ground (arith, decode_extended-be32 msg.timestamp rest v.timestamp_fits))
  | inr e ↦ rw e (ground arith)
]

pub read_full_header-message_header :
    (s : ChunkReadState) (msg : RawMessage) (rest : Text)
    → IsMessage msg
    → read_full_header s
        (message_header msg (length msg.payload) ++ (extended_of msg.timestamp ++ rest))
      ≡ ok (reading msg [], rest)
unfolding read_full_header
read_full_header-message_header s msg rest v =
    let hdr = message_header msg (length msg.payload) in
    let head = read_full-append hdr (extended_of msg.timestamp ++ rest) in
    let stamped = read_timestamp-stamp msg rest v in
    let size = v.size_fits in
    let time : be24_at hdr 0 ≡ stamp msg = ground (arith, be24_back (stamp msg)) in
    let long : be24_at hdr 3 ≡ length msg.payload = be24_back (length msg.payload) (omega arith) in
    let stream : le32_at hdr 7 ≡ msg.stream_id = le32_back msg.stream_id v.stream_fits in
    let kind : at hdr 6 ≡ msg.type_id = let t = v.type_fits in omega arith in
    rw (head, time, stamped, long, stream, kind) (ground arith)

pub read_no_header-extended_of :
    (msg : RawMessage) (part rest : Text)
    → IsMessage msg
    → length part < length msg.payload
    → read_no_header (reading msg part) (extended_of msg.timestamp ++ rest)
      ≡ ok (reading msg part, rest)
unfolding read_no_header
read_no_header-extended_of msg part rest v more =
    elim (Bool-cases (leb chunk_timestamp_max msg.timestamp)) [
      | inl e ↦ ground (arith, decode_extended-be32 msg.timestamp rest v.timestamp_fits)
      | inr e ↦ ground arith
    ]
