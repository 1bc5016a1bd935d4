-- ===== src/TcpKeepalive.antt =====
-- tcp-keepalive/internal: one exchange of the client, the client's loops, and the server.
pub mod Exchange
pub mod Client
pub mod Server
