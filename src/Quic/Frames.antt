-- ===== src/Quic/Frames.antt =====
-- include/boltapi/quic/frames.h: the frames of a QUIC packet, parsed and serialized.
pub mod Reader
pub mod Ack
pub mod Payload
pub mod Close
pub mod AckRoundTrip
pub mod PayloadRoundTrip
