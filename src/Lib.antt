-- ===== src/Lib.antt =====
-- A model of the core of the server in src/hypercorn, and what is proved of it.
--
-- The program. A protocol (protocol/h11.py, h2.py, h3.py) reads a connection, and makes a stream for
-- each request that it finds there. A stream is an HTTPStream (protocol/http_stream.py) or a WSStream
-- (protocol/ws_stream.py). The protocol calls the stream's `handle` with its events, the application
-- calls the stream's `app_send` with its ASGI messages, and the stream calls back: `send` with events
-- for the protocol, `app_put` with messages for the application, the task group, the access log.
--
-- The files and the code.
--   Prelude, Bytes: shared names and lemmas; Python's bytes and str as lists of numbers.
--   Exec: methods that mutate an object and may raise. The state comes back with the exception too.
--   Asgi: protocol/events.py, and the messages and scopes of typing.py.
--   Platform: `can_sendfile` of utils.py, and what the streams ask of the operating system.
--   Stream: the outputs of a stream, and a stream in its surroundings. The definitions of the streams
--     take `emit`, which is given each output and may change the surroundings or raise. The proofs
--     about runs take the one that records all outputs, newest first.
--   Utils: `suppress_body`, `build_and_validate_headers`, `filter_pseudo_headers`,
--     `valid_server_name` and `escape_dn_chars` of utils.py, and UTF-8.
--   HttpStream: the class HTTPStream. `handle` is the method of that name and HttpStream/AppSend has
--     `app_send`, with a definition for each branch; HttpStream/Recorder and below have its runs.
--   Websocket: protocol/ws_stream.py. Handshake and Buffer are the classes Handshake and
--     WebsocketBuffer, Stream is WSStream with `handle` in Stream/Handle and `app_send` in
--     Stream/AppSend, and Stream/Recorder and below have its runs. Wsproto is the library wsproto.
--   Http1: protocol/h11.py. State has the attributes of an H11Protocol and the events of events.py;
--     Send has `stream_send`, `_maybe_recycle` and what they call, Streams ties the protocol to its
--     stream, and Receive has `handle`, `_handle_events`, `_create_stream` and `_check_protocol`. H11
--     is the library h11. Steady says what a predicate of the protocol has to survive for every call
--     to keep it; Rounds, Idle, Counts, Settles and Passthrough are about the loop, the idle timeout,
--     the counters, the end of a stream and websockets.
--   Addresses: `parse_socket_addr` and `repr_socket_addr` of utils.py, and `response_headers` of
--     config.py.
--   Binds: `create_sockets`, `_create_sockets` and `_set_quic_addresses` of config.py.
--   Supervisor: the processes of `run` in run.py.
--   AccessLog: the class AccessLogAtoms of logging.py.
--   Loader: `load_application`, `wrap_app`, `is_asgi` and `check_for_updates` of utils.py.
--   Tls: `get_tls_info` of utils.py and its tables, one file for each part of the table of suites.
--   Statsd: the messages of StatsdLogger in statsd.py.
--   Tcp: the class TCPServer of asyncio/tcp_server.py over a protocol, and its idle timeout over Http1.
--   Http2: protocol/h2.py. StreamBuffer is that class, and its Channel what it is to its two tasks.
--     Libraries has the libraries h2 and priority. State has the attributes of an H2Protocol and
--     `_flush`; SendTask has `send_task` and `_send_data`, Send has `stream_send` and `_close_stream`,
--     and Receive has `initiate`, `handle` and all that it calls. Flushed, Closing, Busy (with Holds and
--     Refused), Gone and
--     Trailers are about what is left to send, the end, the idle state, streams that are gone and
--     trailers.
--   Multiplex: the streams of such a connection while their methods run, which HTTP/3 has too.
--   Http3: protocol/h3.py and quic.py. Aioquic is the library aioquic, Protocol the class H3Protocol with
--     `send_all` of QuicProtocol, and Quic the rest of QuicProtocol. Trailers is about headers behind a
--     request, Quic/Routing about the table of connection ids, and Quic/Unknown about packets of
--     connections that are not there.
--   Protocols: the class ProtocolWrapper of protocol/__init__.py.
--   Worker: `mark_request` of asyncio/worker_context.py and trio/worker_context.py.
--   Wsgi: WSGIWrapper and `_build_environ` of app_wrappers.py. Environ is the latter, Start has the
--     arguments of `start_response`, and Response has `handle_http` and `run_app`.
--   Middleware: ProxyFix, Dispatcher and Redirect are the classes of middleware/proxy_fix.py,
--     dispatcher.py and http_to_https.py, as functions on scopes.
--   Lifespan: the classes Lifespan of asyncio/lifespan.py and trio/lifespan.py.
--   Settings, CommandLine: the options and the attributes that they set, and `main` of __main__.py,
--     from the arguments to the configuration that `run` is given. Numbers may be negative (ℤ).
--   Tests: runs of concrete connections.
--
-- How code is modelled. A call of a method is one step: what another task could do between two awaits
-- of one call is left out, and orders of whole calls are arbitrary, as lists of calls. Where HTTP/2
-- waits for a stream's buffer, what the other tasks do meanwhile is a parameter (Http2/State, Others),
-- of which nothing is assumed but by one result, on refused requests, which takes that they leave the
-- request's stream where it is. An exception ends a call and keeps what it changed. An attribute that
-- is set late is an Option, and reading it early is an AttributeError. Times, which no branch reads,
-- and the closing of descriptors are left out. Loops are structural recursion on the list that they run over, and need no fuel, but for the
-- loop of `_handle_events`: its fuel is its rounds, and `rounds_left` (Http1/Rounds) is enough, which
-- h11's own measure of the events that it holds gives. That loop ends where the code waits for
-- `can_read`, and goes on in a call of its own (Http1/Steady/Calls). The fuel of `send_task` is its
-- rounds too, and `work` (Http2/SendTask/Work) and one more is enough.
--
-- Parameters. What wsproto (Websocket/Wsproto) raises is a value of its calls. It and h11
-- (Http1/H11) are records with no laws: nothing is assumed of them, but for the end of the loop,
-- which takes that h11 finds finitely many events (Http1/Rounds, Progress), and that sending or
-- starting a cycle brings no more. h2 and priority (Http2/Libraries) are such records too; the end
-- of `send_task` takes that the tree of priorities gives streams that are active
-- (Http2/SendTask/Work, Scheduler), and one result takes that h2's `data_to_send` empties it.
-- HTTP/2 keeps each stream for its application under its id, which h2 gives to no other. aioquic
-- (Http3/Aioquic) is such a record, with no laws; the loop over its events has its rounds as fuel,
-- and no result says that it ends. The percent decoding, the files and the descriptors of the
-- operating system are fields of Platform.
--
-- Not modelled: tasks, and what the operating system does with a socket; the reading
-- of configuration files; the loggers themselves; the worker functions and the gunicorn workers.
mod Prelude
pub mod Bytes
pub mod Settings
pub mod CommandLine
pub mod Exec
pub mod Asgi
pub mod Utils
pub mod Platform
pub mod Stream
pub mod HttpStream
pub mod Websocket
pub mod Wsgi
pub mod Middleware
pub mod Lifespan
pub mod Http1
pub mod Tcp
pub mod Protocols
pub mod Tls
pub mod Loader
pub mod Supervisor
pub mod Multiplex
pub mod Http2
pub mod Http3
pub mod Worker
pub mod Statsd
pub mod AccessLog
pub mod Addresses
pub mod Binds
mod Tests
