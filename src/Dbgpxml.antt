-- ===== src/Dbgpxml.antt =====
-- lib/dbgpxml: the XML messages, one module for each struct.
pub mod Common
pub mod ProxyInit
pub mod ProxyStop
pub mod CloudInit
pub mod CloudStop
pub mod Breakpoint
pub mod Init
pub mod Notify
pub mod Stream
pub mod Response
pub mod CtrlResponse
pub mod Message
