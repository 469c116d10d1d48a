-- ===== src/Net.antt =====
-- net/: the wire protocol. `Bytes` has payloads and the numbers and strings in them.
pub mod Bytes
pub mod Commands
pub mod Frames
pub mod KvWire
pub mod SetWire
pub mod HashAnswer
pub mod HashWire
pub mod ListAnswer
pub mod ListWire
pub mod Safety
mod Tests
