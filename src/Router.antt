-- ===== src/Router.antt =====
-- The router of src/router: its tables, its faces and the forwarder that joins them.
pub mod Table
pub mod Matching
pub mod Fib
pub mod St
pub mod FaceManager
pub mod Forwarder
pub mod TcpTransport
pub mod UdpTransport
pub mod CmdServer
pub mod Dumps
pub mod Servers
pub mod Run
