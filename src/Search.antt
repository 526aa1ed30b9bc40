-- ===== src/Search.antt =====
-- hw04/pfind.c: the parallel search for files, its two queues.
pub mod Pool
pub mod State
pub mod Queues
pub mod Line
pub mod Threads
pub mod Dirs
pub mod Scan
pub mod Handover
mod Tests
