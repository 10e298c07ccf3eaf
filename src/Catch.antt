-- ===== src/Catch.antt =====
-- smoke/catch_uboot.py: drives a panel into u-boot over a WebSocket.
pub mod Socket
pub mod Frame
pub mod Receive
pub mod Rfc
pub mod Waiting
pub mod Cut
pub mod Shrinks
pub mod Used
pub mod Round
pub mod Stream
pub mod Wire
pub mod Codec
pub mod Connect
pub mod Handshake
pub mod Console
pub mod Watching
pub mod Burst
pub mod Watch
pub mod Safety
pub mod Shortens
pub mod Returns
pub mod Termination
pub mod Sent
pub mod RoundTrip
