-- ===== src/Rtmp/Chunk/Bounded.antt =====
-- internal/rtmp/conn.go, readMessage: the slice of a message that is read in part.
use qumo.Common.{
  ℕ, ◌+◌, ◌-◌, ◌%◌, ◌^◌, ◌≤◌, ◌<◌, ◌≡◌, Bool, false, ◌++◌, ltb, ◌==◌, min, if◌then◌else◌, Text, ok,
  err, ◌>>=◌, length, length-append, arith, some, sym, subst, if_either,
}
use qumo.Rtmp.Chunk.{
  out_of_range, ChunkReadState, Conn, max_message_size, chunk_timestamp_max, be24_at, read_full,
  decode_extended,
}
use qumo.Rtmp.Chunk.Read.{
  start_message, checked_start, read_timestamp, add_delta, put_full_header, put_same_stream,
  read_full_header, read_same_stream, read_same_length, read_no_header, read_header, read_payload,
}
use qumo.Rtmp.Chunk.Total.{
  Ends, Ends->>=, AreBytes, be24_at-small, Left, read_full-Ends, decode_extended-Ends,
}

-- The slice has room for what is left of the message, and a message is shorter than 2 ^ 24 bytes.
pub record IsState (s : ChunkReadState) : Type 0 where
  pub has_room : length s.payload + s.remaining ≡ s.capacity
  pub next_short : s.message_length < 2 ^ 24
  pub short : s.capacity < 2 ^ 24

-- What a header leaves: a state, and bytes, none more than before.
abbrev pub Header : Text → ChunkReadState × Text → Type 0
Header bs x = IsState x.0 × Left 0 bs x.1

start_message-IsState : (s : ChunkReadState) → s.message_length < 2 ^ 24 → IsState (start_message s)
start_message-IsState s h = record { has_room = omega arith; next_short = h; short = h }

checked_start-Ends :
    (s : ChunkReadState) (bs rest : Text)
    → s.message_length < 2 ^ 24
    → Left 0 bs rest
    → Ends (Header bs) (checked_start s rest)
checked_start-Ends s bs rest h left =
    let small : ltb max_message_size s.message_length ≡ false = ground arith in
    rw small (start_message-IsState s h, left)

read_timestamp-Ends :
    (ts : ℕ) (bs : Text)
    → AreBytes bs
    → Ends (λ (x : ℕ × Bool × Text). Left 0 bs x.2) (read_timestamp ts bs)
read_timestamp-Ends ts bs h =
    if_either (Ends (λ (x : ℕ × Bool × Text). Left 0 bs x.2)) (ts == chunk_timestamp_max) _ _
      (Ends->>= _ _ (decode_extended bs) _ (decode_extended-Ends bs h) (λ x p. p)) (h, omega arith)

read_full_header-Ends :
    (s : ChunkReadState) (bs : Text) → AreBytes bs → Ends (Header bs) (read_full_header s bs)
unfolding read_full_header
read_full_header-Ends s bs h = Ends->>= _ _ (read_full 11 bs) _ (read_full-Ends 11 bs h) λ x p.
    Ends->>= _ _ (read_timestamp (be24_at x.0 0) x.1) _
      (read_timestamp-Ends (be24_at x.0 0) x.1 p.2.0)
      λ y q.
        checked_start-Ends (put_full_header x.0 y.0 y.1 s) bs y.2 (be24_at-small x.0 3 p.0)
          (q.0, (let a = p.2.1 in let b = q.1 in omega arith))

read_same_stream-Ends :
    (s : ChunkReadState) (bs : Text) → AreBytes bs → Ends (Header bs) (read_same_stream s bs)
unfolding read_same_stream
read_same_stream-Ends s bs h = Ends->>= _ _ (read_full 7 bs) _ (read_full-Ends 7 bs h) λ x p.
    Ends->>= _ _ (read_timestamp (be24_at x.0 0) x.1) _
      (read_timestamp-Ends (be24_at x.0 0) x.1 p.2.0)
      λ y q.
        checked_start-Ends (put_same_stream x.0 y.0 y.1 s) bs y.2 (be24_at-small x.0 3 p.0)
          (q.0, (let a = p.2.1 in let b = q.1 in omega arith))

read_same_length-Ends :
    (s : ChunkReadState) (bs : Text)
    → IsState s
    → AreBytes bs
    → Ends (Header bs) (read_same_length s bs)
unfolding read_same_length
read_same_length-Ends s bs v h = Ends->>= _ _ (read_full 3 bs) _ (read_full-Ends 3 bs h) λ x p.
    Ends->>= _ _ (read_timestamp (be24_at x.0 0) x.1) _
      (read_timestamp-Ends (be24_at x.0 0) x.1 p.2.0)
      λ y q. (
        start_message-IsState (add_delta y.0 y.1 s) v.next_short,
        (q.0, (let a = p.2.1 in let b = q.1 in omega arith)),
      )

read_no_header-Ends :
    (s : ChunkReadState) (bs : Text)
    → IsState s
    → AreBytes bs
    → Ends (Header bs) (read_no_header s bs)
unfolding read_no_header
read_no_header-Ends s bs v h =
    Ends->>= (λ (rest : Text). Left 0 bs rest) (Header bs)
      (if s.has_extended then (decode_extended bs >>= λ (ext, rest). ok rest) else ok bs) _
      (if_either (Ends (λ (rest : Text). Left 0 bs rest)) s.has_extended _ _
        (Ends->>= _ _ (decode_extended bs) _ (decode_extended-Ends bs h) (λ x p. p))
        (h, omega arith))
      λ rest p. (
        if_either IsState (s.remaining == 0) _ _
            (start_message-IsState
              (record s { timestamp = (s.timestamp + s.timestamp_delta) % 2 ^ 32 }) v.next_short)
            v,
        p,
      )

pub read_header-Ends :
    (fmt : ℕ) (s : ChunkReadState) (bs : Text)
    → IsState s
    → AreBytes bs
    → Ends (Header bs) (read_header fmt s bs)
unfolding read_header
read_header-Ends fmt s bs v h =
    if_either (Ends (Header bs)) (fmt == 0) _ _ (read_full_header-Ends s bs h) (
      if_either (Ends (Header bs)) (fmt == 1) _ _ (read_same_stream-Ends s bs h) (
        if_either (Ends (Header bs)) (fmt == 2) _ _ (read_same_length-Ends s bs v h)
          (read_no_header-Ends s bs v h)))

taken-IsState :
    (s : ChunkReadState) (part : Text) (n : ℕ)
    → IsState s
    → n ≤ s.remaining
    → length part ≡ n
    → IsState (record s { payload = s.payload ++ part; remaining = s.remaining - n })
taken-IsState s part n v le len = record {
  has_room = let a = v.has_room in let b = length-append s.payload part in omega arith;
  next_short = v.next_short;
  short = v.short;
}

pub read_payload-Ends :
    (size : ℕ) (s : ChunkReadState) (bs : Text)
    → IsState s
    → AreBytes bs
    → Ends (Header bs) (read_payload size s bs)
unfolding read_payload
read_payload-Ends size s bs v h =
    let n = min s.remaining size in
    let room : ltb s.capacity (length s.payload + n) ≡ false = let a = v.has_room in ground arith in
    if_either (Ends (Header bs)) (n == 0) _ _ (v, (h, omega arith))
      (subst
        (λ (b : Bool). Ends (Header bs) (
          if b
          then err out_of_range
          else (read_full n bs >>= λ (part, rest).
              ok (record s { payload = s.payload ++ part; remaining = s.remaining - n }, rest))))
        (sym room)
        (Ends->>= _ _ (read_full n bs) _ (read_full-Ends n bs h) λ x p.
          (taken-IsState s x.0 n v (omega arith) p.1, (p.2.0, (let a = p.2.1 in omega arith)))))

pub record IsReader (c : Conn) : Type 0 where
  pub states : (i : ℕ) (s : ChunkReadState) → c.read_states i ≡ some s → IsState s
  pub writes : 0 < c.write_chunk_size
