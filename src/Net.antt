-- ===== src/Net.antt =====
-- The reactor, winterfell/net.
pub mod Channel
pub mod TcpConnection
pub mod PollPoller
pub mod TimerQueue
pub mod Connector
pub mod EventLoop
pub mod SubLoops
pub mod TcpClient
pub mod Socket
pub mod Acceptor
pub mod TcpServer
pub mod Endpoint
