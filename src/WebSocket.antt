-- ===== src/WebSocket.antt =====
-- The WebSocket parts of src/http: the frame codec and the connection that runs on it.
pub mod Frame
pub mod Utf8
pub mod Close
pub mod Sender
pub mod Connection
mod Tests
