-- ===== src/Webrtc.antt =====
-- The WebRTC parts of include/boltapi/webrtc.
pub mod Replay
mod Tests
