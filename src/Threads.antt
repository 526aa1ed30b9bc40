-- ===== src/Threads.antt =====
-- rec09-mutex: threads that share a counter.
pub mod Schedule
pub mod Sum
pub mod Joining
pub mod Locked
pub mod Primes
pub mod Atomic
pub mod Condition
mod Tests
