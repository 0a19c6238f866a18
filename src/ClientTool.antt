-- ===== src/ClientTool.antt =====
-- dbgpClient: the command line client.
pub mod Register
pub mod RegisterLine
pub mod Proxy
pub mod Completer
pub mod Session
pub mod Clients
pub mod Main
pub mod Registration
pub mod Unregistration
pub mod Tests
pub mod CommandTests
pub mod ForwardingTests
pub mod UnregistrationTests
pub mod CompleterTests
