-- ===== src/Bfdd.antt =====
-- src/bbdd-bfdd.c: the protocol that bfdd speaks to the daemon.
pub mod Message
pub mod Convert
pub mod Send
pub mod State
pub mod Requests
pub mod Reading
pub mod Serving
pub mod Wire
pub mod Arriving
pub mod Carried
pub mod Framing
pub mod Stream
pub mod Framed
