-- ===== src/Client.antt =====
-- The client library of src/lib: the transports that publishers and subscribers use.
pub mod TcpTransport
pub mod UdpTransport
pub mod Face
