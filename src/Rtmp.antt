-- ===== src/Rtmp.antt =====
-- internal/rtmp: the encodings of the RTMP server, and the chunks that it reads and writes messages in.
pub mod Amf0
pub mod Chunk
