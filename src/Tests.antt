-- ===== src/Tests.antt =====
-- Queues of numbers on `VecBuffer`, with arrays as values and no notifier, and small words, buffers
-- and frames, at which the theorems are applied.
pub mod Data
pub mod Theorems
pub mod Parts
pub mod Pending
pub mod Threads
pub mod Wakers
pub mod Blocking
pub mod Bytes
pub mod Parking
pub mod Vectored
pub mod Iter
