-- ===== src/Ipc.antt =====
-- The messages between the cores: firmware/src/ipc and firmware/include/ipc.
pub mod Header
pub mod Ring
pub mod Queue
pub mod Watch
pub mod Link
mod Tests
