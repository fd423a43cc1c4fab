-- ===== src/Fs.antt =====
-- The file system, src/fs: its record locks, the bit maps, and the processes that wait.
pub mod Lock
pub mod Cache
pub mod Suspend
pub mod Bitmap
