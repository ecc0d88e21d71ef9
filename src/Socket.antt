-- ===== src/Socket.antt =====
-- socket/: the stream, datagram and HTTP programs.
pub mod ReadLine
pub mod EchoServer
pub mod Setup
pub mod HttpClient
pub mod Datagram
pub mod StreamCopy
pub mod Endpoints
