-- ===== src/Tcp.antt =====
-- src/tcp_listener.rs: the framing of the byte stream, the response, the connection loop, and the accept
-- loop.
pub mod Frame
pub mod Response
pub mod Process
pub mod Connection
pub mod Listener
