-- ===== src/Rtmp/Chunk/Examples.antt =====
-- internal/rtmp/conn.go: concrete messages, and the theorems at concrete inputs.
use qumo.Common.{
  Result, err, Option, some, none, Bool, ltb, ◌&&◌, ℕ, zero, suc, ◌^◌, ◌≡◌, ◌≢◌, refl, true, [],
  ◌∷◌, ◌++◌, Text, ok, length, arith,
}
use qumo.Rtmp.Chunk.{unexpected_eof, ChunkError, RawMessage, Conn, new_conn}
use qumo.Rtmp.Chunk.Write.{write_chunks, write_raw_message}
use qumo.Rtmp.Chunk.Read.{read_message}
use qumo.Rtmp.Chunk.Headers.{IsMessage}
use qumo.Rtmp.Chunk.RoundTrip.{IsOpen, Others}
use qumo.Rtmp.Chunk.Sent.{read-write}
use qumo.Rtmp.Chunk.Total.{Ends, AreBytes}
use qumo.Rtmp.Chunk.Bounded.{IsReader}
use qumo.Rtmp.Chunk.Ended.{Message, read_message-Ends}
use qumo.Rtmp.Chunk.Control.{next_command, handle_control_message, send_set_chunk_size}
use qumo.Rtmp.Chunk.Commands.{Stops, Command, next_command-Stops}
use qumo.Rtmp.Chunk.Sizes.{size_message, resized_read}
use qumo.Rtmp.Chunk.Oversize.{oversize_written}

-- The counter never reaches a window.
abbrev counted : Text → ℕ
counted rest = 0

-- Five bytes in chunks of two, with an extended timestamp.
abbrev video : RawMessage
video = record {
  type_id = 9;
  stream_id = 1;
  timestamp = 16_777_215;
  payload = 1 ∷ 2 ∷ 3 ∷ 4 ∷ 5 ∷ [];
}

abbrev small : Conn
small = record new_conn { read_chunk_size = 2; write_chunk_size = 2 }

abbrev video_chunks : Text
video_chunks =
    6 ∷ 255 ∷ 255 ∷ 255 ∷ 0 ∷ 0 ∷ 5 ∷ 9 ∷ 1 ∷ 0 ∷ 0 ∷ 0 ∷ 0 ∷ 255 ∷ 255 ∷ 255 ∷ 1 ∷ 2 ∷ 198 ∷ 0
    ∷ 255 ∷ 255 ∷ 255 ∷ 3 ∷ 4 ∷ 198 ∷ 0 ∷ 255 ∷ 255 ∷ 255 ∷ 5 ∷ []

video_written : write_chunks 6 6 video 2 5 true video.payload ≡ ok video_chunks
unfolding write_chunks
video_written = refl

video-IsMessage : IsMessage video
video-IsMessage = record {
  type_fits = omega arith;
  stream_fits = omega arith;
  timestamp_fits = omega arith;
  size_fits = omega arith;
}

small-IsOpen : IsOpen small
small-IsOpen = record { reads_some = omega arith; writes_some = omega arith; works = refl }

read-write_example :
    (bytes : Text) × (d : Conn) × (write_raw_message 6 video small
      ≡ ok (record small { written = small.written ++ bytes }))
    × (read_message counted (suc (length video.payload)) small (bytes ++ 7 ∷ [])
        ≡ ok (video, d, 7 ∷ []))
    × Others 6 small d
read-write_example =
    read-write counted 6 video small small (7 ∷ []) video-IsMessage (omega arith) (omega arith) refl
      refl small-IsOpen

small-IsReader : IsReader small
small-IsReader = record { states = λ i s e. absurd cc; writes = omega arith }

abbrev stray : Text
stray = 6 ∷ 0 ∷ 0 ∷ []

stray-AreBytes : AreBytes stray
stray-AreBytes = (omega arith, (omega arith, (omega arith, tt)))

read_message-Ends_example : Ends (Message counted stray) (read_message counted 4 small stray)
read_message-Ends_example =
    read_message-Ends counted 4 small stray small-IsReader stray-AreBytes (omega arith)

zeros : ℕ → Text
zeros zero = []
zeros (suc n) = 0 ∷ zeros n

length-zeros : (n : ℕ) → length (zeros n) ≡ n
unfolding zeros
length-zeros zero = refl
length-zeros (suc n) = omega (arith, length-zeros n)

abbrev long : RawMessage
long = record { type_id = 9; stream_id = 1; timestamp = 0; payload = zeros (2 ^ 24) }

oversize_written_example :
    ((w : Conn) × (write_raw_message 6 long small ≡ ok w))
    × (read_message counted 4 small stray ≢ ok (long, small, []))
oversize_written_example =
    oversize_written counted 6 long small small small 4 stray []
      (omega (arith, length-zeros (2 ^ 24))) (omega arith) refl small-IsReader stray-AreBytes
      (omega arith)

-- A window of 7 bytes on the control stream, and a command with no payload.
abbrev commands : Text
commands =
    2 ∷ 0 ∷ 0 ∷ 0 ∷ 0 ∷ 0 ∷ 4 ∷ 5 ∷ 0 ∷ 0 ∷ 0 ∷ 0 ∷ 0 ∷ 0 ∷ 194 ∷ 0 ∷ 7 ∷ 3 ∷ 0 ∷ 0 ∷ 0 ∷ 0 ∷ 0 ∷ 0
    ∷ 20 ∷ 0 ∷ 0 ∷ 0 ∷ 0 ∷ []

all_bytes : Text → Bool
all_bytes [] = true
all_bytes (b ∷ bs) = ltb b 256 && all_bytes bs

all_bytes-AreBytes : (bs : Text) → all_bytes bs ≡ true → AreBytes bs
unfolding all_bytes
all_bytes-AreBytes [] h = tt
all_bytes-AreBytes (b ∷ bs) h = (ground arith, all_bytes-AreBytes bs (ground arith))

commands-AreBytes : AreBytes commands
unfolding all_bytes
commands-AreBytes = all_bytes-AreBytes commands refl

next_command-Stops_example : Stops (Command commands) (next_command counted 30 small commands)
next_command-Stops_example =
    next_command-Stops counted 30 small commands small-IsReader commands-AreBytes (omega arith)

resized_read_example :
    (bytes : Text) × (more : Text) × (d : Conn) × (e : Conn) × (send_set_chunk_size 4_096 small
      ≡ ok (record small { written = small.written ++ bytes }))
    × (write_raw_message 6 video
          (record small { written = small.written ++ bytes; write_chunk_size = 4_096 })
        ≡ ok
            (record small { written = (small.written ++ bytes) ++ more; write_chunk_size = 4_096 }))
    × (read_message counted 5 small (bytes ++ (more ++ 7 ∷ []))
        ≡ ok (size_message 4_096, d, more ++ 7 ∷ []))
    × (handle_control_message (size_message 4_096) d ≡ ok (record d { read_chunk_size = 4_096 }))
    × (read_message counted 6 (record d { read_chunk_size = 4_096 }) (more ++ 7 ∷ [])
        ≡ ok (video, e, 7 ∷ []))
resized_read_example =
    resized_read counted 4_096 6 video small small (7 ∷ []) (omega arith) (omega arith)
      video-IsMessage (omega arith) (omega arith) refl refl small-IsOpen

-- The type of what is read, the window that was set before it, and what is left.
abbrev shown : Result ChunkError (RawMessage × Conn × Text) → Option (ℕ × ℕ × Text)
shown (ok x) = some (x.0.type_id, x.1.window_ack_size, x.2)
shown (err e) = none

commands_read : shown (next_command counted 30 small commands) ≡ some (20, 7, [])
unfolding next_command read_message
commands_read = refl

-- A window in a payload of two bytes ends the reading, although a byte is left.
short_control :
    next_command counted 17 small (2 ∷ 0 ∷ 0 ∷ 0 ∷ 0 ∷ 0 ∷ 2 ∷ 5 ∷ 0 ∷ 0 ∷ 0 ∷ 0 ∷ 0 ∷ 7 ∷ 3 ∷ [])
    ≡ err unexpected_eof
unfolding next_command read_message
short_control = refl
