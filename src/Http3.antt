-- ===== src/Http3.antt =====
-- protocol/h3.py and protocol/quic.py: HTTP/3 connections over QUIC.
pub mod Aioquic
pub mod Protocol
pub mod Quic
pub mod Trailers
