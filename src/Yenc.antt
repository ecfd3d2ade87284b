-- ===== src/Yenc.antt =====
-- src/nksrv/lib/utils/yenc: the encoder (enc.go) and the decoder (dec.go) of binary posts.
pub mod Encoder
pub mod Decoder
pub mod Stream
pub mod RoundTrip
mod Tests
