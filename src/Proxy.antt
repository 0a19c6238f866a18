-- ===== src/Proxy.antt =====
-- lib/proxy: what the proxy does with a connection from an IDE and with one from Xdebug.
pub mod ClientHandler
pub mod ConnectToIde
pub mod Forwarder
pub mod ServerHandler
pub mod Tests
pub mod SampleSession
pub mod SessionTests
pub mod EndTests
