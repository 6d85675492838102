-- ===== src/Rtmp/Chunk/Ended.antt =====
-- internal/rtmp/conn.go, readMessage: every way in which it ends.
use qumo.Common.{
  ℕ, zero, suc, ◌+◌, ◌-◌, ◌%◌, ◌^◌, ◌<◌, ◌≡◌, refl, true, [], leb, ◌==◌, if◌then◌else◌, Text, ok,
  err, length, arith, inl, inr, Bool-cases, Option-cases, Option, none, some, update, sym, subst,
  if_either, if_each,
}
use qumo.Rtmp.Chunk.{
  csid_control, message_type_ack, be32, closed, RawMessage, ChunkReadState, new_state, Conn,
  decode_basic,
}
use qumo.Rtmp.Chunk.Read.{
  read_header, read_payload, check_ack, state_of, put_chunk_state, message_of, read_chunk,
  read_message,
}
use qumo.Rtmp.Chunk.Total.{Ends, Ends->>=, Ends-weaken, AreBytes, Left, decode_basic-Ends}
use qumo.Rtmp.Chunk.Write.{write_raw_message, send_ack}
use qumo.Rtmp.Chunk.Acks.{write_raw_message_chunks, check_ack-SameReader}
use qumo.Rtmp.Chunk.Bounded.{IsState, IsReader, read_header-Ends, read_payload-Ends}

-- What an acknowledgement leaves of the connection.
abbrev Acked : Conn → Conn → Type 0
Acked c d = (d.read_states ≡ c.read_states) × (d.write_chunk_size ≡ c.write_chunk_size)

write_broken :
    (csid : ℕ) (msg : RawMessage) (c : Conn)
    → 0 < c.write_chunk_size
    → c.broken ≡ true
    → write_raw_message csid msg c ≡ err closed
write_broken csid msg c pos gone =
    let (bytes, e) = write_raw_message_chunks csid msg c pos in ground arith

check_ack-Ends :
    (bytes_read : ℕ) (c : Conn) → 0 < c.write_chunk_size → Ends (Acked c) (check_ack bytes_read c)
unfolding check_ack send_ack
check_ack-Ends bytes_read c pos = elim (Bool-cases c.broken) [
  | inl gone ↦
      let acked : Conn = record c { last_acked = bytes_read } in
      let ack : RawMessage = record {
        type_id = message_type_ack;
        stream_id = 0;
        timestamp = 0;
        payload = be32 (bytes_read % 2 ^ 32);
      } in
      let refused = write_broken csid_control ack acked pos gone in
      if_either (Ends (Acked c)) (c.window_ack_size == 0) _ _ (refl, refl)
        (if_either (Ends (Acked c))
          (leb c.window_ack_size ((bytes_read + 2 ^ 64 - c.last_acked) % 2 ^ 64)) _ _
          (subst (Ends (Acked c)) (sym refused) (inr (inr refl))) (refl, refl))
  | inr works ↦
      let (d, e, same) = check_ack-SameReader bytes_read c pos works in
      subst (Ends (Acked c)) (sym e) (same.same_states, same.same_write)
]

new_state-IsState : IsState new_state
new_state-IsState = record { has_room = omega arith; next_short = omega arith; short = omega arith }

state_of-IsState : (csid : ℕ) (c : Conn) → IsReader c → IsState (state_of csid c)
state_of-IsState csid c v = elim (Option-cases (c.read_states csid)) [
  | inl n ↦
      let same : state_of csid c ≡ new_state = ground arith in
      subst IsState (sym same) new_state-IsState
  | inr (s, e) ↦
      let same : state_of csid c ≡ s = ground arith in subst IsState (sym same) (v.states csid s e)
]

pub put_chunk_state-IsReader :
    (csid : ℕ) (s : ChunkReadState) (c d : Conn)
    → IsReader c
    → IsState s
    → d.read_states ≡ update c.read_states csid (some s)
    → d.write_chunk_size ≡ c.write_chunk_size
    → IsReader d
put_chunk_state-IsReader csid s c d v w same size = record {
  states = λ i t e. elim (Bool-cases (csid == i)) [
    | inl q ↦ let now : s ≡ t = ground (arith, same) in subst IsState now w
    | inr q ↦ v.states i t (ground (arith, same))
  ];
  writes = let a = v.writes in omega arith;
}

-- What a round leaves: a connection that can be read again, and fewer bytes.
abbrev Rest : Text → Conn × Text → Type 0
Rest bs x = IsReader x.0 × Left 1 bs x.1

abbrev Round : Text → Option RawMessage × Conn × Text → Type 0
Round bs x =
    ((msg : RawMessage) → x.0 ≡ some msg → length msg.payload < 2 ^ 24) × Rest bs (x.1, x.2)

finished :
    (csid : ℕ) (s : ChunkReadState) (c d : Conn) (bs rest : Text)
    → IsReader c
    → IsState s
    → Acked (put_chunk_state csid s c) d
    → Left 1 bs rest
    → Round bs (
        if s.remaining == 0
        then (
          some (message_of s),
          put_chunk_state csid (record s { payload = []; capacity = 0 }) d,
          rest,
        )
        else (none, d, rest))
finished csid s c d bs rest v w acked left =
    let empty = record s { payload = []; capacity = 0 } in
    let kept = put_chunk_state-IsReader csid s c d v w acked.0 acked.1 in
    let short = w.short in
    let room = w.has_room in
    if_each (Round bs) (s.remaining == 0) (some (message_of s), put_chunk_state csid empty d, rest)
      (none, d, rest)
      (λ z.
        let emptied : IsState empty = record {
          has_room = ground arith;
          next_short = w.next_short;
          short = omega arith;
        } in
        (
          λ msg e. ground arith,
          (
            put_chunk_state-IsReader csid empty d (put_chunk_state csid empty d) kept emptied refl
                refl,
            left,
          ),
        ))
      (λ z. ((λ msg e. absurd cc), (kept, left)))

module _ (counted : Text → ℕ) where
  read_chunk-Ends :
      (c : Conn) (bs : Text) → IsReader c → AreBytes bs → Ends (Round bs) (read_chunk counted c bs)
  unfolding read_chunk
  read_chunk-Ends c bs v h = Ends->>= _ _ (decode_basic bs) _ (decode_basic-Ends bs h) λ x p.
      Ends->>= _ _ (read_header x.0 (state_of x.1 c) x.2) _
        (read_header-Ends x.0 (state_of x.1 c) x.2 (state_of-IsState x.1 c v) p.0)
        λ y q.
          Ends->>= _ _ (read_payload c.read_chunk_size y.0 y.1) _
            (read_payload-Ends c.read_chunk_size y.0 y.1 q.0 q.1.0)
            λ z r.
              Ends->>= _ _ (check_ack (counted z.1) (put_chunk_state x.1 z.0 c)) _
                (check_ack-Ends (counted z.1) (put_chunk_state x.1 z.0 c) v.writes)
                λ d acked.
                  finished x.1 z.0 c d bs z.1 v r.0 acked
                    (r.1.0, (let a = p.1 in let b = q.1.1 in let e = r.1.1 in omega arith))

  -- What readMessage leaves: a message of less than 2 ^ 24 bytes, and what a round leaves.
  abbrev pub Message : Text → RawMessage × Conn × Text → Type 0
  Message bs x = (length x.0.payload < 2 ^ 24) × IsReader x.1 × Left 1 bs x.2

  -- The rounds after one.
  after_round :
      (fuel : ℕ) (bs : Text) (found : Option RawMessage) (d : Conn) (rest : Text)
      → Round bs (found, d, rest)
      → Ends (Message rest) (read_message counted fuel d rest)
      → Ends
          (Message bs)
          (elim found [ none ↦ read_message counted fuel d rest | some msg ↦ ok (msg, d, rest) ])
  after_round fuel bs none d rest p more =
      Ends-weaken (Message rest) (Message bs) (read_message counted fuel d rest)
        (λ x q. (q.0, q.1, (q.2.0, (let a = p.1.1.1 in let b = q.2.1 in omega arith)))) more
  after_round fuel bs (some msg) d rest p more = (p.0 msg refl, p.1.0, p.1.1)

  -- On any bytes, from a connection on which every message in part has room for what is left of it,
  -- readMessage ends within a round for each byte and one more. It fails only where the input ends or
  -- the transport is closed: never with a message that is too large, nor past the capacity of a slice.
  -- Otherwise it returns a message of less than 2 ^ 24 bytes and fewer bytes, and leaves such a
  -- connection.
  pub read_message-Ends :
      (fuel : ℕ) (c : Conn) (bs : Text)
      → IsReader c
      → AreBytes bs
      → length bs < fuel
      → Ends (Message bs) (read_message counted fuel c bs)
  unfolding read_message
  read_message-Ends zero c bs v h lt = absurd (omega arith)
  read_message-Ends (suc fuel) c bs v h lt =
      Ends->>= _ _ (read_chunk counted c bs) _ (read_chunk-Ends c bs v h) λ x p.
        after_round fuel bs x.0 x.1 x.2 p
          (read_message-Ends fuel x.1 x.2 p.1.0 p.1.1.0 (let a = p.1.1.1 in omega arith))
