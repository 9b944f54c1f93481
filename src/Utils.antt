-- ===== src/Utils.antt =====
-- utils.py: the helpers on headers, on socket addresses and on names in certificates.
pub mod Headers
pub mod Utf8
pub mod Names
