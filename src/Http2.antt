-- ===== src/Http2.antt =====
-- protocol/h2.py: HTTP/2 connections.
pub mod StreamBuffer
pub mod Libraries
pub mod State
pub mod SendTask
pub mod Send
pub mod Receive
pub mod Flushed
pub mod Gone
pub mod Trailers
pub mod Holds
pub mod Refused
pub mod Busy
pub mod Closing
