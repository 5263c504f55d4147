-- ===== src/Networking.antt =====
-- Messages over TCP: networking/tcp_server.py and networking/tcp_client.py.
pub mod Framing
pub mod Server
pub mod Client
pub mod Link
pub mod Lifecycle
