-- ===== src/Rtmp/Chunk/Rounds.antt =====
-- internal/rtmp/conn.go: one chunk that was written, and one round of readMessage.
use qumo.Common.{
  ℕ, zero, suc, ◌+◌, ◌-◌, ◌≤◌, ◌<◌, ◌≡◌, refl, Bool, true, false, [], ◌∷◌, ◌++◌, ◌==◌, min, drop,
  take, if◌then◌else◌, Text, ok, length, length-append, append_assoc, append-nil, arith, ap, ◌∙◌,
  none, some,
}
use qumo.Rtmp.Chunk.{RawMessage, ChunkReadState, Conn, decode_basic, encode_basic}
use qumo.Rtmp.Chunk.Write.{chunk_header, extended_of, message_header}
use qumo.Rtmp.Chunk.Read.{
  read_header, read_payload, check_ack, state_of, put_chunk_state, message_of, read_chunk,
}
use qumo.Rtmp.Chunk.Headers.{
  read_full-append, decode_basic-encode_basic, IsMessage, reading, read_full_header-message_header,
  read_no_header-extended_of,
}

pub take-append-drop : (n : ℕ) (bs : Text) → take n bs ++ drop n bs ≡ bs
take-append-drop zero bs = refl
take-append-drop (suc n) [] = refl
take-append-drop (suc n) (b ∷ bs) = ap (λ l. b ∷ l) (take-append-drop n bs)

pub length-take_le : (n : ℕ) (bs : Text) → n ≤ length bs → length (take n bs) ≡ n
length-take_le zero bs h = refl
length-take_le (suc n) [] h = absurd (omega arith)
length-take_le (suc n) (b ∷ bs) h = ap suc (length-take_le n bs (omega arith))

-- A piece of the payload of `n` bytes, which is what the reader takes of it.
pub read_payload-piece :
    (size : ℕ) (msg : RawMessage) (part piece rest : Text)
    → length part + length piece ≤ length msg.payload
    → min (length msg.payload - length part) size ≡ length piece
    → read_payload size (reading msg part) (piece ++ rest) ≡ ok (reading msg (part ++ piece), rest)
unfolding read_payload
read_payload-piece size msg part [] rest le n =
    let nil = append-nil part in
    let same : reading msg (part ++ []) ≡ reading msg part = ap (reading msg) nil in
    ground (arith, same)
read_payload-piece size msg part (b ∷ bs) rest le n =
    let taken = read_full-append (b ∷ bs) rest in
    let sum = length-append part (b ∷ bs) in
    let few : (length msg.payload - length part) - length (b ∷ bs)
        ≡ length msg.payload - length (part ++ b ∷ bs) =
      omega arith in
    rw n (ground (arith, taken))

-- What the state of the chunk stream is to be before a chunk: anything before the first one, and
-- before a later one the message that was read in part.
abbrev pub Ready : Bool → ℕ → RawMessage → Text → Conn → Type 0
Ready true csid msg part c = part ≡ []
Ready false csid msg part c =
    (state_of csid c ≡ reading msg part) × (length part < length msg.payload)

-- The header of a chunk leads to the message that is read.
abbrev pub Starts : ℕ → RawMessage → Text → Conn → Text → Text → Type 0
Starts csid msg part c bs rest =
    (fmt : ℕ) × (left : Text) × (decode_basic bs ≡ ok (fmt, csid, left))
    × (read_header fmt (state_of csid c) left ≡ ok (reading msg part, rest))

pub chunk-Starts :
    (first : Bool) (csid : ℕ) (msg : RawMessage) (part rest : Text) (c : Conn)
    → IsMessage msg
    → 2 ≤ csid
    → csid < 65_600
    → Ready first csid msg part c
    → Starts csid msg part c (chunk_header csid msg (length msg.payload) first ++ rest) rest
unfolding chunk_header read_header
chunk-Starts true csid msg part rest c v low high empty =
    let header = message_header msg (length msg.payload) in
    let ext = extended_of msg.timestamp in
    let apart =
      append_assoc (encode_basic 0 csid) (header ++ ext) rest
      ∙ ap (λ l. encode_basic 0 csid ++ l) (append_assoc header ext rest) in
    let begins =
      decode_basic-encode_basic 0 csid (header ++ (ext ++ rest)) (omega arith) low high in
    let full = read_full_header-message_header (state_of csid c) msg rest v in
    (0, header ++ (ext ++ rest), ap decode_basic apart ∙ begins, rw empty full)
chunk-Starts false csid msg part rest c v low high (same, more) =
    let ext = extended_of msg.timestamp in
    let apart = append_assoc (encode_basic 3 csid) ext rest in
    let begins = decode_basic-encode_basic 3 csid (ext ++ rest) (omega arith) low high in
    let later = read_no_header-extended_of msg part rest v more in
    (3, ext ++ rest, ap decode_basic apart ∙ begins, rw same later)

-- One round, from what its steps return.
pub read_chunk_of :
    (counted : Text → ℕ) (c d : Conn) (bs rest rest' : Text) (csid : ℕ) (s s' : ChunkReadState)
    → (fmt : ℕ) × (left : Text) × (decode_basic bs ≡ ok (fmt, csid, left))
      × (read_header fmt (state_of csid c) left ≡ ok (s, rest))
    → read_payload c.read_chunk_size s rest ≡ ok (s', rest')
    → check_ack (counted rest') (put_chunk_state csid s' c) ≡ ok d
    → read_chunk counted c bs
      ≡ ok (
          if s'.remaining == 0
          then (
            some (message_of s'),
            put_chunk_state csid (record s' { payload = []; capacity = 0 }) d,
            rest',
          )
          else (none, d, rest'))
unfolding read_chunk
read_chunk_of counted c d bs rest rest' csid s s' (fmt, left, a, b) e f = rw (a, b, e, f) refl
