-- ===== src/WebSocketConnection.antt =====
-- include/ws/WebSocketConnection.h and src/WebSocketConnection.cpp: one WebSocket connection. The
-- children hold its data, what it sends, how it decodes frames, its handshake, and the theorems
-- on each.
pub mod Types
pub mod Send
pub mod Decode
pub mod HttpMethod
pub mod Handshake
pub mod Layout
pub mod Outgoing
pub mod Requests
pub mod Header
pub mod Payload
pub mod Masking
pub mod Frames
pub mod Pieces
pub mod Messages
pub mod Control
pub mod Fragments
pub mod Refusals
pub mod Progress
pub mod Termination
pub mod Endless
pub mod Opening
mod Tests
