-- ===== src/Net.antt =====
-- include/afx/net.
pub mod Protocol
pub mod Connection
pub mod TcpClient
pub mod TcpServer
pub mod UdpSocket
