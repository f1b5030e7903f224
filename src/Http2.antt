-- ===== src/Http2.antt =====
-- The HTTP/2 parts of src/http.
pub mod Stream
pub mod Frame
pub mod Integer
mod Tests
mod FrameTests
