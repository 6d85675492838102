-- ===== src/Rtmp/Chunk/Acks.antt =====
-- internal/rtmp/conn.go: an acknowledgement on the way leaves what is read alone.
use qumo.Common.{
  ℕ, zero, suc, ◌+◌, ◌-◌, ◌%◌, ◌^◌, ◌≤◌, ◌<◌, ◌≡◌, refl, Bool, true, false, [], ◌∷◌, ◌++◌, leb,
  ◌==◌, min, drop, take, if◌then◌else◌, Text, ok, err, length, arith, inl, inr, Bool-cases,
}
use qumo.Rtmp.Chunk.{closed, RawMessage, Conn, be32, csid_control, message_type_ack}
use qumo.Rtmp.Chunk.Write.{write_chunks, write_raw_message, send_ack, chunk_header}
use qumo.Rtmp.Chunk.Read.{check_ack}

pub length-drop : (n : ℕ) (bs : Text) → length (drop n bs) ≡ length bs - n
length-drop zero bs = omega arith
length-drop (suc n) [] = omega arith
length-drop (suc n) (b ∷ bs) = omega (arith, length-drop n bs)

length-take : (n : ℕ) (bs : Text) → length (take n bs) ≤ n
length-take zero bs = omega arith
length-take (suc n) [] = omega arith
length-take (suc n) (b ∷ bs) = omega (arith, length-take n bs)

-- With chunks of a size that is not 0, a round for each byte and one more is enough to write.
pub write_chunks_total :
    (fuel csid : ℕ) (msg : RawMessage) (size msg_len : ℕ) (first : Bool) (left : Text)
    → 0 < size
    → length left < fuel
    → (bytes : Text) × (write_chunks fuel csid msg size msg_len first left ≡ ok bytes)
unfolding write_chunks
write_chunks_total zero csid msg size msg_len first left pos lt = absurd (omega arith)
write_chunks_total (suc fuel) csid msg size msg_len first left pos lt =
    let n = min size (length left) in
    let chunk = chunk_header csid msg msg_len first ++ take n left in
    elim (Bool-cases (leb (length left) n)) [
      | inl e ↦ (chunk, ground arith)
      | inr e ↦
          let (more, same) =
            write_chunks_total fuel csid msg size msg_len false (drop n left) pos
              (let shorter = length-drop n left in ground arith) in
          (chunk ++ more, ground arith)
    ]

-- What of a connection the reader of messages looks at.
pub record SameReader (c d : Conn) : Type 0 where
  pub same_size : d.read_chunk_size ≡ c.read_chunk_size
  pub same_states : d.read_states ≡ c.read_states
  pub same_write : d.write_chunk_size ≡ c.write_chunk_size
  pub same_broken : d.broken ≡ c.broken

pub SameReader-refl : (c : Conn) → SameReader c c
SameReader-refl c = record {
  same_size = refl;
  same_states = refl;
  same_write = refl;
  same_broken = refl;
}

-- What writeRawMessage makes of the chunks, which can always be written.
pub write_raw_message_chunks :
    (csid : ℕ) (msg : RawMessage) (c : Conn)
    → 0 < c.write_chunk_size
    → (bytes : Text) × (write_raw_message csid msg c
        ≡ (if c.broken then err closed else ok (record c { written = c.written ++ bytes })))
unfolding write_raw_message
write_raw_message_chunks csid msg c pos =
    let n = length msg.payload % 2 ^ 32 in
    let short = length-take n msg.payload in
    let (bytes, e) =
      write_chunks_total (suc n) csid msg c.write_chunk_size n true (take n msg.payload) pos
        (omega arith) in
    (bytes, rw e refl)

pub write_raw_message-SameReader :
    (csid : ℕ) (msg : RawMessage) (c : Conn)
    → 0 < c.write_chunk_size
    → c.broken ≡ false
    → (d : Conn) × (write_raw_message csid msg c ≡ ok d) × SameReader c d
write_raw_message-SameReader csid msg c pos works =
    let (bytes, e) = write_raw_message_chunks csid msg c pos in
    (
      record c { written = c.written ++ bytes },
      ground arith,
      record { same_size = refl; same_states = refl; same_write = refl; same_broken = refl },
    )

-- A transport that takes what is written is sent the acknowledgement.
pub check_ack-SameReader :
    (bytes_read : ℕ) (c : Conn)
    → 0 < c.write_chunk_size
    → c.broken ≡ false
    → (d : Conn) × (check_ack bytes_read c ≡ ok d) × SameReader c d
unfolding check_ack send_ack
check_ack-SameReader bytes_read c pos works =
    let acked : Conn = record c { last_acked = bytes_read } in
    let ack : RawMessage = record {
      type_id = message_type_ack;
      stream_id = 0;
      timestamp = 0;
      payload = be32 (bytes_read % 2 ^ 32);
    } in
    let (d, e, same) = write_raw_message-SameReader csid_control ack acked pos works in
    elim (Bool-cases (c.window_ack_size == 0)) [
      | inl z ↦ (c, ground arith, SameReader-refl c)
      | inr z ↦
          elim (Bool-cases
            (leb c.window_ack_size ((bytes_read + 2 ^ 64 - c.last_acked) % 2 ^ 64))) [
              | inl w ↦ (
                d,
                ground arith,
                record {
                  same_size = same.same_size;
                  same_states = same.same_states;
                  same_write = same.same_write;
                  same_broken = same.same_broken;
                },
              )
              | inr w ↦ (c, ground arith, SameReader-refl c)
            ]
    ]
