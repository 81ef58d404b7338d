-- ===== src/Vfs.antt =====
-- The user file system: firmware/src/svc/vfs_path.c and firmware/src/svc/vfs.c.
pub mod Path
pub mod Fat
pub mod Files
pub mod Dirs
pub mod Guarded
pub mod Protocol
pub mod Handles
pub mod Reading
mod Tests
