-- ===== src/Http1.antt =====
-- protocol/h11.py: HTTP/1 connections.
pub mod H11
pub mod State
pub mod Send
pub mod Streams
pub mod Receive
pub mod Steady
pub mod Rounds
pub mod Idle
pub mod Counts
pub mod Settles
pub mod Passthrough
