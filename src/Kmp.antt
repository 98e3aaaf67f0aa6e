-- ===== src/Kmp.antt =====
-- user/kamstrup/kmp.c and kmp.h, the Kamstrup Meter Protocol: `Frame` holds the frame buffer with
-- byte stuffing, `Request` the requests, `Response` the decoder; the other modules prove.
pub mod Frame
pub mod Request
pub mod Response
pub mod Stuffing
pub mod Contents
pub mod Wire
pub mod Layout
pub mod Decoding
pub mod Encoding
pub mod Registers
pub mod Replies
pub mod Meter
pub mod Values
pub mod Rendering
pub mod Session
mod Tests
