-- ===== src/Wsgi.antt =====
-- The WSGI applications of src/hypercorn/app_wrappers.py.
pub mod Environ
pub mod Response
pub mod Start
