-- ===== src/MessageSlot.antt =====
-- hw03: the message slot, a character device with numbered channels (message_slot.c).
pub mod Driver
pub mod Chain
pub mod View
pub mod Copy
pub mod Target
pub mod Read
pub mod Write
pub mod Find
pub mod Grow
pub mod Ioctl
pub mod Exit
pub mod Session
pub mod Wide
pub mod Programs
mod Tests
