-- ===== src/Rtmp/Chunk/Control.antt =====
-- internal/rtmp/conn.go, handleControlMessage, the senders that it and handleConnect call, and the loop
-- of readNextCommand; internal/rtmp/message.go, the control messages.
use qumo.Common.{
  ℕ, zero, suc, ◌*◌, ◌+◌, ◌/◌, ◌%◌, ◌^◌, Bool, ◌&&◌, ◌||◌, none, some, [], ◌∷◌, leb, ltb, ◌==◌,
  if◌then◌else◌, Text, Result, ok, err, ◌>>=◌, length, take,
}
use qumo.Rtmp.Chunk.{
  ChunkError, invalid_chunk_size, out_of_fuel, RawMessage, Conn, csid_control, message_type_ack, at,
  be32, be32_at, read_full,
}
use qumo.Rtmp.Chunk.Write.{write_raw_message}
use qumo.Rtmp.Chunk.Read.{put_chunk_state, read_message}

abbrev pub message_type_set_chunk_size : ℕ
message_type_set_chunk_size = 1

abbrev pub message_type_abort : ℕ
message_type_abort = 2

abbrev pub message_type_user_control : ℕ
message_type_user_control = 4

abbrev pub message_type_window_ack_size : ℕ
message_type_window_ack_size = 5

abbrev pub message_type_set_peer_bandwidth : ℕ
message_type_set_peer_bandwidth = 6

abbrev pub message_type_amf3_command : ℕ
message_type_amf3_command = 17

abbrev pub message_type_amf0_command : ℕ
message_type_amf0_command = 20

abbrev pub user_control_ping_request : ℕ
user_control_ping_request = 6

abbrev pub user_control_ping_response : ℕ
user_control_ping_response = 7

-- A control message of a type and a payload, on the control stream.
abbrev pub control_message : ℕ → Text → RawMessage
control_message type_id payload = record {
  type_id = type_id;
  stream_id = 0;
  timestamp = 0;
  payload = payload;
}

abbrev pub send_set_chunk_size : ℕ → Conn → Result ChunkError Conn
send_set_chunk_size size c =
    write_raw_message csid_control
      (control_message message_type_set_chunk_size (be32 (size % 2 ^ 31))) c

abbrev pub send_user_control : ℕ → Text → Conn → Result ChunkError Conn
send_user_control event_type event_data c =
    write_raw_message csid_control
      (control_message message_type_user_control
        (event_type / 256 % 256 ∷ event_type % 256 ∷ event_data))
      c

-- The chunk size that a message sets.
unfoldable pub set_chunk_size : Text → Conn → Result ChunkError Conn
unfolding read_full
set_chunk_size payload c = read_full 4 payload >>= λ (b, rest).
    let size = be32_at b 0 % 2 ^ 31 in
    if ltb size 1 then err invalid_chunk_size else ok (record c { read_chunk_size = size })

unfoldable pub abort_message : Text → Conn → Result ChunkError Conn
unfolding read_full
abort_message payload c = read_full 4 payload >>= λ (b, rest). elim (c.read_states (be32_at b 0)) [
  | none ↦ ok c
  | some s ↦
      ok (put_chunk_state (be32_at b 0) (record s { payload = []; capacity = 0; remaining = 0 }) c)
]

unfoldable pub take_ack : Text → Conn → Result ChunkError Conn
unfolding read_full
take_ack payload c =
    read_full 4 payload >>= λ (b, rest). ok (record c { peer_acked_bytes = be32_at b 0 })

unfoldable pub user_control : Text → Conn → Result ChunkError Conn
unfolding read_full
user_control payload c = read_full 2 payload >>= λ (b, event_data).
    if (at b 0 * 256 + at b 1 == user_control_ping_request) && leb 4 (length event_data)
    then send_user_control user_control_ping_response (take 4 event_data) c
    else ok c

unfoldable pub set_window_ack_size : Text → Conn → Result ChunkError Conn
unfolding read_full
set_window_ack_size payload c =
    read_full 4 payload >>= λ (b, rest). ok (record c { window_ack_size = be32_at b 0 })

unfoldable pub set_peer_bandwidth : Text → Conn → Result ChunkError Conn
unfolding read_full
set_peer_bandwidth payload c = read_full 5 payload >>= λ (b, rest). ok c

unfoldable pub handle_control_message : RawMessage → Conn → Result ChunkError Conn
unfolding set_chunk_size abort_message take_ack user_control set_window_ack_size set_peer_bandwidth
handle_control_message msg c =
    if msg.type_id == message_type_set_chunk_size
    then set_chunk_size msg.payload c
    else if msg.type_id == message_type_abort
    then abort_message msg.payload c
    else if msg.type_id == message_type_ack
    then take_ack msg.payload c
    else if msg.type_id == message_type_user_control
    then user_control msg.payload c
    else if msg.type_id == message_type_window_ack_size
    then set_window_ack_size msg.payload c
    else if msg.type_id == message_type_set_peer_bandwidth
    then set_peer_bandwidth msg.payload c
    else ok c

abbrev pub is_control_message : ℕ → Bool
is_control_message type_id =
    leb message_type_set_chunk_size type_id && leb type_id message_type_set_peer_bandwidth

abbrev pub is_command : ℕ → Bool
is_command type_id =
    (type_id == message_type_amf0_command) || (type_id == message_type_amf3_command)

-- What readNextCommand reads up to the message that it decodes. Each message has the fuel that it needs.
unfoldable pub next_command :
    (Text → ℕ) → ℕ → Conn → Text → Result ChunkError (RawMessage × Conn × Text)
unfolding handle_control_message
next_command counted zero c bs = err out_of_fuel
next_command counted (suc fuel) c bs =
    read_message counted (suc (length bs)) c bs >>= λ (msg, c', rest).
    let more = next_command counted fuel c' rest in
    if is_control_message msg.type_id
    then (handle_control_message msg c' >>= λ d. next_command counted fuel d rest)
    else if is_command msg.type_id
    then ok (msg, c', rest)
    else more
