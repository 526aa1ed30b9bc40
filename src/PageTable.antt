-- ===== src/PageTable.antt =====
-- hw01: a five-level page table (pt.c) over simulated physical memory (os.c).
pub mod Os
pub mod Table
pub mod Memory
pub mod Frames
pub mod Walk
pub mod Fill
pub mod Finish
pub mod Refine
pub mod Main
mod Tests
