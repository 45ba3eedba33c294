-- ===== src/Tests/Blocking.antt =====
-- The theorems on the operations that wait.
use swap_buffer_queue.Prelude.{ℕ, ◌-◌, ◌≡◌, refl, Option, List, false, some, [], ◌∷◌, arith}
use swap_buffer_queue.Prelude.Run.{done}
use swap_buffer_queue.Error.{Result, ok, err, DequeueError}
use swap_buffer_queue.Notify.{no_notify}
use swap_buffer_queue.Buffer.Insert.Laws.{array_laws}
use swap_buffer_queue.Buffer.Vec.Laws.{buffer_laws, cell_laws}
use swap_buffer_queue.Queue.{Queue}
use swap_buffer_queue.Queue.Spec.{enqueue, dequeue, dequeue_in, swap}
use swap_buffer_queue.Queue.Repr.{Repr}
use swap_buffer_queue.Queue.Control.{fresh}
use swap_buffer_queue.Queue.Dequeue.{BufferSlice}
use swap_buffer_queue.Synchronized.Blocking as Blocking
use swap_buffer_queue.Synchronized.Blocking.Awaited.{Awaits, dequeue_ends}
use swap_buffer_queue.Synchronized.Blocking.{try_enqueue, enqueue_sync}
use swap_buffer_queue.Synchronized.Blocking.Parked.{Wakes, enqueue_sync_ends}
use swap_buffer_queue.Synchronized.Blocking.Enqueue.{try_enqueue_waits}
use swap_buffer_queue.Synchronized.Blocking.Dequeue.{Polled, PollRefined, poll_dequeue_refines}
use swap_buffer_queue.Tests.Data.{
  Cells, vec, values, empty_queue, filled_queue, filled, empty_queue-Repr, filled-Repr,
}

-- Three values do not fit beside two in a buffer of four, but they would fit in an empty one.
try_enqueue_waits_example :
    (q : Queue Cells (Unit {0})) × (try_enqueue vec values no_notify
        (λ n. n)
        0
        (7 ∷ 8 ∷ 9 ∷ [])
        filled_queue
      ≡ done (err (7 ∷ 8 ∷ 9 ∷ [])) q)
    × Repr buffer_laws (Unit {0}) q 0 filled
unfolding enqueue
try_enqueue_waits_example =
    try_enqueue_waits buffer_laws (array_laws buffer_laws cell_laws) no_notify (λ n. n) 0
      (7 ∷ 8 ∷ 9 ∷ []) (omega arith) filled_queue 0 filled filled-Repr

poll_dequeue_refines_example :
    PollRefined buffer_laws no_notify (λ n. n) filled_queue (dequeue filled)
poll_dequeue_refines_example =
    poll_dequeue_refines buffer_laws no_notify (λ n. n) filled_queue 0 filled filled-Repr

-- While the caller is parked, the queue is emptied.
emptied-Wakes :
    Wakes buffer_laws
      (array_laws buffer_laws cell_laws)
      no_notify
      (λ n. n)
      0
      (7 ∷ 8 ∷ 9 ∷ [])
      (omega arith)
      filled
      ((false, λ q. empty_queue) ∷ [])
      (fresh 4)
unfolding enqueue
emptied-Wakes = (refl, refl, (fresh 4, λ q index repr. (0, empty_queue-Repr), (refl, refl)))

enqueue_sync_ends_example :
    (q : Queue Cells (Unit {0})) × (index : ℕ) × (enqueue_sync vec values no_notify
        (λ n. n)
        0
        ((false, λ q. empty_queue) ∷ [])
        (7 ∷ 8 ∷ 9 ∷ [])
        filled_queue
      ≡ done (some (ok tt)) q)
    × Repr buffer_laws (Unit {0}) q index (record (fresh 4) { enqueued = 7 ∷ 8 ∷ 9 ∷ [] })
unfolding enqueue
enqueue_sync_ends_example =
    enqueue_sync_ends buffer_laws (array_laws buffer_laws cell_laws) no_notify (λ n. n) 0
      (7 ∷ 8 ∷ 9 ∷ []) (omega arith) ((false, λ q. empty_queue) ∷ []) filled_queue 0 filled
      (fresh 4) filled-Repr emptied-Wakes

-- While the caller is parked, two values are enqueued.
pub filled-Awaits :
    Awaits buffer_laws no_notify (λ n. n) (fresh 4) ((λ q. filled_queue) ∷ []) filled
unfolding dequeue dequeue_in swap
filled-Awaits = (refl, (filled, λ q index repr. (0, filled-Repr), (refl, refl)))

dequeue_ends_example :
    (r : Option (Result (BufferSlice (List ℕ)) DequeueError)) × (q : Queue Cells (Unit {0}))
    × (index : ℕ) × (Blocking.dequeue vec no_notify (λ n. n) ((λ q. filled_queue) ∷ []) empty_queue
        ≡ done r q)
    × Polled buffer_laws (dequeue filled).0 (1 - index) (dequeue filled).1.phase r
    × Repr buffer_laws (Unit {0}) q index (dequeue filled).1
dequeue_ends_example =
    dequeue_ends buffer_laws no_notify (λ n. n) ((λ q. filled_queue) ∷ []) empty_queue 0 (fresh 4)
      filled empty_queue-Repr filled-Awaits
