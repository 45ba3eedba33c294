-- ===== src/Lib.antt =====
-- Verification of swap-buffer-queue, a buffering queue for many producers and one consumer.
--
-- The program. A queue (src/queue.rs) has two buffers. Values are enqueued into one of them; a dequeuing
-- swaps the roles of the two and takes everything that was enqueued out at once, as a slice. The
-- enqueuing side is one word, which packs the index of the buffer, the capacity that remains and a
-- closed flag; the dequeuing side is another word, which packs the index of the other buffer and the
-- length that is still to be dequeued, or marks that a slice is out (the lock). For each buffer the
-- queue counts the length that has been inserted.
--
-- The files.
--   Word, Word/Enqueuing, Word/Dequeuing: `EnqueuingCapacity` and `DequeuingLength` of src/queue.rs,
--     over a `usize` of 64 bits with the wrap-around written out.
--   Buffer: the traits of src/buffer.rs as records of operations, and their documented contracts as
--     records of laws. Buffer/Array and Buffer/Vec are src/buffer/array.rs and src/buffer/vec.rs, on
--     the cells of Buffer/Cells; Buffer/Insert is the values that src/buffer.rs inserts.
--   Queue: `Queue` of src/queue.rs, its constructors and accessors. Queue/Enqueue is `try_enqueue` and
--     `close`; Queue/Dequeue is `try_dequeue` with all it calls, `release`, `requeue`, `remove` and
--     `drop`; Queue/Resizing is `try_dequeue_and_resize`, with its closure that resizes and inserts.
--     Queue/Spec is the abstract queue, a list of items and a phase; Queue/Repr says which queue stands
--     for which abstract one; the other files below Queue relate the two.
--   Slice: `BufferSlice` and `OwnedBufferIter` of src/buffer.rs.
--   Vectored: src/write_vectored.rs; Vectored/Buffer: src/write_vectored/vec.rs; Vectored/Array:
--     src/write_vectored/array.rs, which is related to the vector buffer.
--   Bytes: src/write.rs and src/write/vec.rs. Bytes/Array: src/write/array.rs and the arrays of
--     src/utils.rs.
--   Error, Notify, Loom: src/error.rs, src/notify.rs, and the two limits of src/loom.rs.
--   Concurrent: the steps that several threads make on src/queue.rs, one atomic access or one access of
--     a buffer at a time, in any order. Concurrent/Inv is the invariant, its children
--     go through the steps, and Concurrent/Safety and Concurrent/Progress are about the states that
--     can be reached. The cells of a buffer are only known to be initialised or not there, and buffers
--     are not resized. The sizes that values report are a parameter, with a bound where a theorem says
--     so; an `insert_into` may panic, and that thread makes no further step.
--   Synchronized/Blocking: the operations of src/synchronized.rs that wait. The notifier and what its
--     registration does are parameters, and so is what happens while a caller is parked.
--   Synchronized/Iter: the iterator of src/synchronized.rs, with the adaptors of the standard library
--     written out.
--   Synchronized/Waker, Synchronized/AtomicWaker, Synchronized/WakerList: src/synchronized/waker.rs,
--     src/synchronized/atomic_waker.rs and src/synchronized/waker_list.rs, as steps of several threads
--     in any order. Task wakers and thread handles are parameters.
--   Synchronized/Parking: threads that register, look at the queue once more and wait, among threads
--     that change the queue and notify, as steps on those structures. Synchronized/Parking/Dequeuer is
--     the side that dequeues, with one thread that waits, Synchronized/Parking/Enqueuers the other; the
--     queue and what a look at it finds are parameters, and Synchronized/Parking/Looks is what the code
--     finds.
--   Threads: one value for each thread, the thread that holds a lock, sums over threads.
--   History: sequences of calls of one caller, on the code and on the abstract queue.
--   Tests: queues and small inputs at which the theorems are applied.
--   Prelude: names of the library, lists over the native numbers, bit operations, the run of code
--     that may panic (`Prelude.Run`), and buffer slots (`Prelude.Slots`).
--
-- The model. An operation is a function from the state of the queue to a run: an answer and a new
-- state, a panic, or a fault, which stands for undefined behaviour such as reading a cell that is not
-- initialised. Except in Concurrent and in the wakers, one caller works on the queue at a time, so a
-- compare-and-swap finds the word that was loaded; the one of `try_enqueue` may fail spuriously any
-- number of times, a parameter of the operation. Hints and back-off have no effect on the state and
-- are left out, and debug assertions are not run.
--
-- Bounds and fuel. The spin loop of a dequeuing has its own bound, `SPIN_LIMIT`, which is 64. The one
-- call that `try_dequeue_internal` makes of itself passes no closure, so it makes no further one, and
-- two levels are enough. A queue has a capacity below `2 ^ 62 - 1`, which the constructors check, and
-- the sizes of values are below `2 ^ 63` where a theorem says so.
--
-- Not modelled: memory orders weaker than sequential consistency; the stream of src/synchronized.rs,
-- which is made of combinators of the futures crate, and its clock; Debug and Display texts, and the
-- memory layout that src/utils.rs relies on.
pub mod Prelude
pub mod Loom
pub mod Error
pub mod Word
pub mod Buffer
pub mod Notify
pub mod Two
pub mod Queue
pub mod Slice
pub mod Vectored
pub mod Bytes
pub mod History
pub mod Threads
pub mod Concurrent
pub mod Synchronized
pub mod Tests
