-- ===== src/Quic.antt =====
-- The QUIC primitives of include/boltapi/quic.
pub mod Varint
pub mod PnSpace
pub mod Frames
pub mod Ack
pub mod Stream
pub mod Recovery
pub mod Robustness
mod Tests
mod FrameTests
mod SendTests
mod RecoveryTests
mod RobustnessTests
