-- ===== src/Websocket.antt =====
-- src/hypercorn/protocol/ws_stream.py: the opening handshake, the buffer that joins the fragments of
-- a message, and the stream of one websocket.
pub mod Wsproto
pub mod Handshake
pub mod Buffer
pub mod Stream
