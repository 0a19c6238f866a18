-- ===== src/Go.antt =====
-- The functions of Go's standard library that the program calls.
pub mod Text
pub mod Decimal
pub mod Stream
pub mod Xml
pub mod Net
pub mod Crc32
pub mod HostPort
