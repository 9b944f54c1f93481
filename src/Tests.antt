-- ===== src/Tests.antt =====
-- Runs at concrete inputs, and the theorems at such inputs.
mod Data
mod Http
mod Http1
mod Tcp
mod CommandLine
mod Loader
mod AccessLog
mod Supervisor
mod HeaderNames
mod Websocket
mod Wsgi
mod Middleware
mod Lifespan
mod Http2
mod Http2Connection
mod Http3
mod Protocols
mod Addresses
