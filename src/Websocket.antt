-- ===== src/Websocket.antt =====
-- The websocket protocol handler (Websocket.cpp, Websocket.h).
pub mod Types
pub mod Send
pub mod Frame
pub mod Receive
pub mod Prefix
pub mod Stream
pub mod Chunks
pub mod Wire
pub mod RoundTrip
pub mod Reply
pub mod Frames
pub mod Fragments
pub mod Violations
