-- ===== src/Rtmp/Chunk/Commands.antt =====
-- internal/rtmp/conn.go, readNextCommand: every way in which its reading ends.
use qumo.Common.{
  ℕ, zero, suc, ◌+◌, ◌*◌, ◌%◌, ◌^◌, ◌<◌, ◌≡◌, ◌⊎◌, refl, true, [], leb, ltb, ◌==◌, ◌&&◌, ◌++◌, Text,
  Result, ok, err, ◌>>=◌, length, arith, inl, inr, Option-cases, some, sym, subst, if_either,
  if_each,
}
use qumo.Rtmp.Chunk.{
  ChunkError, invalid_chunk_size, RawMessage, ChunkReadState, Conn, at, be32_at, read_full,
  csid_control, closed, message_type_ack,
}
use qumo.Rtmp.Chunk.Write.{write_raw_message}
use qumo.Rtmp.Chunk.Read.{put_chunk_state, read_message}
use qumo.Rtmp.Chunk.Total.{Ordinary, Ends, AreBytes, Left}
use qumo.Rtmp.Chunk.Bounded.{IsReader}
use qumo.Rtmp.Chunk.Acks.{write_raw_message_chunks}
use qumo.Rtmp.Chunk.Ended.{Message, read_message-Ends, put_chunk_state-IsReader}
use qumo.Rtmp.Chunk.Control.{
  set_chunk_size, abort_message, take_ack, user_control, set_window_ack_size, set_peer_bandwidth,
  handle_control_message, is_control_message, is_command, next_command, user_control_ping_request,
  message_type_set_chunk_size, message_type_abort, message_type_user_control,
  message_type_window_ack_size, message_type_set_peer_bandwidth,
}

-- A step ends with a value of which `P` holds, an ordinary error, or a refused chunk size.
abbrev pub Stops {ℓ} : {A : Type ℓ} → (A → Type 0) → Result ChunkError A → Type 0
Stops P (ok a) = P a
Stops P (err e) = Ordinary e ⊎ (e ≡ invalid_chunk_size)

Stops->>= :
    {A B : Type 0} (P : A → Type 0) (Q : B → Type 0) (r : Result ChunkError A)
    (k : A → Result ChunkError B)
    → Stops P r
    → ((a : A) → P a → Stops Q (k a))
    → Stops Q (r >>= k)
Stops->>= P Q (ok a) k h f = f a h
Stops->>= P Q (err e) k h f = h

Ends-Stops : {A : Type 0} (P : A → Type 0) (r : Result ChunkError A) → Ends P r → Stops P r
Ends-Stops P (ok a) h = h
Ends-Stops P (err e) h = inl h

-- Some bytes of a payload, and then anything that stops.
after_read :
    (n : ℕ) (payload : Text) (k : Text × Text → Result ChunkError Conn)
    → ((x : Text × Text) → Stops IsReader (k x))
    → Stops IsReader (read_full n payload >>= k)
unfolding read_full
after_read n payload k f =
    Stops->>= (λ x. Unit) IsReader (read_full n payload) k
      (if_either (Stops (λ (x : Text × Text). Unit)) (leb n (length payload)) _ _ tt (
        if_either (Stops (λ (x : Text × Text). Unit)) (length payload == 0) _ _ (inl (inl refl))
          (inl (inr (inl refl)))))
      (λ x h. f x)

write-Stops :
    (csid : ℕ) (msg : RawMessage) (c : Conn)
    → IsReader c
    → Stops IsReader (write_raw_message csid msg c)
write-Stops csid msg c v =
    let (bytes, e) = write_raw_message_chunks csid msg c v.writes in
    subst (Stops IsReader) (sym e) (
      if_either (Stops IsReader) c.broken (err closed)
        (ok (record c { written = c.written ++ bytes })) (inl (inr (inr refl)))
        (record { states = v.states; writes = v.writes }))

abort-IsReader :
    (i : ℕ) (c : Conn) (s : ChunkReadState)
    → IsReader c
    → c.read_states i ≡ some s
    → IsReader (put_chunk_state i (record s { payload = []; capacity = 0; remaining = 0 }) c)
abort-IsReader i c s v e =
    let old = v.states i s e in
    let aborted = record s { payload = []; capacity = 0; remaining = 0 } in
    put_chunk_state-IsReader i aborted c (put_chunk_state i aborted c) v
      (record { has_room = omega arith; next_short = old.next_short; short = omega arith }) refl
      refl

abort_message-Stops :
    (payload : Text) (c : Conn) → IsReader c → Stops IsReader (abort_message payload c)
unfolding abort_message
abort_message-Stops payload c v = after_read 4 payload _ λ x.
    elim (Option-cases (c.read_states (be32_at x.0 0))) [
      | inl e ↦ rw e v
      | inr (s, e) ↦ let kept = abort-IsReader (be32_at x.0 0) c s v e in rw e kept
    ]

set_chunk_size-Stops :
    (payload : Text) (c : Conn) → IsReader c → Stops IsReader (set_chunk_size payload c)
unfolding set_chunk_size
set_chunk_size-Stops payload c v = after_read 4 payload _ λ x.
    if_either (Stops IsReader) (ltb (be32_at x.0 0 % 2 ^ 31) 1) _ _ (inr refl)
      (record { states = v.states; writes = v.writes })

user_control-Stops :
    (payload : Text) (c : Conn) → IsReader c → Stops IsReader (user_control payload c)
unfolding user_control
user_control-Stops payload c v = after_read 2 payload _ λ x.
    if_either (Stops IsReader)
      ((at x.0 0 * 256 + at x.0 1 == user_control_ping_request) && leb 4 (length x.1)) _ _
      (write-Stops csid_control _ c v) v

handle_control_message-Stops :
    (msg : RawMessage) (c : Conn) → IsReader c → Stops IsReader (handle_control_message msg c)
unfolding handle_control_message take_ack set_window_ack_size set_peer_bandwidth
handle_control_message-Stops msg c v =
    let payload = msg.payload in
    let id = msg.type_id in
    let choose = if_either (Stops IsReader) in
    choose (id == message_type_set_chunk_size) _ _ (set_chunk_size-Stops payload c v) (
      choose (id == message_type_abort) _ _ (abort_message-Stops payload c v) (
        choose (id == message_type_ack) _ _
          (after_read 4 payload _ λ x. record { states = v.states; writes = v.writes })
          (choose (id == message_type_user_control) _ _ (user_control-Stops payload c v) (
            choose (id == message_type_window_ack_size) _ _
              (after_read 4 payload _ λ x. record { states = v.states; writes = v.writes })
              (choose (id == message_type_set_peer_bandwidth) _ _ (after_read 5 payload _ λ x. v)
                v)))))

-- What readNextCommand leaves: a command, and what readMessage leaves.
abbrev pub Command : Text → RawMessage × Conn × Text → Type 0
Command bs x =
    (is_command x.0.type_id ≡ true) × (length x.0.payload < 2 ^ 24) × IsReader x.1 × Left 1 bs x.2

Stops-weaken :
    {A : Type 0} (P Q : A → Type 0) (r : Result ChunkError A)
    → ((a : A) → P a → Q a)
    → Stops P r
    → Stops Q r
Stops-weaken P Q (ok a) f h = f a h
Stops-weaken P Q (err e) f h = h

Command-later :
    (bs rest : Text)
    → Left 1 bs rest
    → (x : RawMessage × Conn × Text) → Command rest x
    → Command bs x
Command-later bs rest left x p =
    (p.0, p.1, p.2, (p.3.0, (let a = left.1 in let b = p.3.1 in omega arith)))

module _ (counted : Text → ℕ) where
  -- On any bytes, from a connection on which every message in part has room for what is left of it,
  -- the reading of readNextCommand ends within a message for each byte and one more, whatever control
  -- messages the peer sends in between. It fails only with io.EOF or io.ErrUnexpectedEOF, which also a
  -- control message gives whose payload is too short, with a transport that is closed, or with a
  -- chunk size of 0 that the peer sets. Otherwise it returns a command of less than 2 ^ 24 bytes and
  -- fewer bytes, and leaves such a connection.
  pub next_command-Stops :
      (fuel : ℕ) (c : Conn) (bs : Text)
      → IsReader c
      → AreBytes bs
      → length bs < fuel
      → Stops (Command bs) (next_command counted fuel c bs)
  unfolding next_command
  next_command-Stops zero c bs v h lt = absurd (omega arith)
  next_command-Stops (suc fuel) c bs v h lt =
      let first = read_message-Ends counted (suc (length bs)) c bs v h (omega arith) in
      Stops->>= (Message counted bs) (Command bs) (read_message counted (suc (length bs)) c bs) _
        (Ends-Stops (Message counted bs) _ first)
        λ x p.
          let left = p.2.1 in
          let shorter : length x.2 < fuel = omega arith in
          let later : (d : Conn)
              → IsReader d
              → Stops (Command bs) (next_command counted fuel d x.2) =
            λ d w.
              Stops-weaken (Command x.2) (Command bs) (next_command counted fuel d x.2)
                (Command-later bs x.2 p.2) (next_command-Stops fuel d x.2 w p.2.0 shorter) in
          if_either (Stops (Command bs)) (is_control_message x.0.type_id) _ _
            (Stops->>= IsReader (Command bs) (handle_control_message x.0 x.1) _
              (handle_control_message-Stops x.0 x.1 p.1) later)
            (if_each (Stops (Command bs)) (is_command x.0.type_id) (ok x) _
              (λ e. (e, p.0, p.1, p.2)) (λ e. later x.1 p.1))
