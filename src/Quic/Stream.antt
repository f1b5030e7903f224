-- ===== src/Quic/Stream.antt =====
-- include/boltapi/quic/stream.h: QUIC streams. `Receive` and `Send` are the two sides of class
-- Stream, each with the part of `flow_` that it uses.
pub mod Ring
pub mod Extents
pub mod Receive
pub mod Send
pub mod RingLaws
pub mod ExtentLaws
pub mod AbsorbLaws
pub mod Reassembly
pub mod Acceptance
pub mod Delivery
