-- ===== src/Synchronized.antt =====
-- src/synchronized.rs.
pub mod Waker
pub mod AtomicWaker
pub mod WakerList
pub mod Blocking
pub mod Parking
pub mod Iter
