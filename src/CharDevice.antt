-- ===== src/CharDevice.antt =====
-- rec06-devices: the two character device modules.
pub mod Replies
pub mod Plain
pub mod Encrypting
pub mod Bytes
pub mod Exclusive
mod Tests
