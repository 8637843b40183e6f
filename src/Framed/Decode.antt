-- ===== src/Framed/Decode.antt =====
-- `recv` of framed.rs against the wire format: whatever the pieces in which the stream delivers its
-- bytes, one poll takes exactly one frame off the input, or says why it cannot.
mod Channels
mod Payload
mod Sized
mod Header
pub use Header.*
pub use Payload.*
