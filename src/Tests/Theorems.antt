-- ===== src/Tests/Theorems.antt =====
-- The theorems on the queues of `Tests.Data`.
use swap_buffer_queue.Prelude.{length, ◌-◌, ℕ, ◌≡◌, refl, ◌++◌, none, some, List, [], ◌∷◌, arith}
use swap_buffer_queue.Prelude.Slots.{Free}
use swap_buffer_queue.Prelude.Run.{done}
use swap_buffer_queue.Error.{ok}
use swap_buffer_queue.Notify.{no_notify}
use swap_buffer_queue.Buffer.Insert.Laws.{array_laws}
use swap_buffer_queue.Buffer.Vec.Laws.{buffer_laws, cell_laws, drain_laws, resize_laws, vec_resize}
use swap_buffer_queue.Queue.{Queue, with_capacity}
use swap_buffer_queue.Two.{at}
use swap_buffer_queue.Queue.Spec.{Spec, requeued, taken, enqueue, dequeue, requeue_phase}
use swap_buffer_queue.Queue.Repr.{Repr}
use swap_buffer_queue.Queue.Control.{fresh, with_capacity_refines}
use swap_buffer_queue.Queue.Enqueue.{try_enqueue}
use swap_buffer_queue.Queue.Enqueue.Refine.{try_enqueue_refines}
use swap_buffer_queue.Queue.Dequeue.{release, requeue, remove, try_dequeue}
use swap_buffer_queue.Queue.Dequeue.Answer.{Refined}
use swap_buffer_queue.Queue.Dequeue.Refine.{try_dequeue_refines}
use swap_buffer_queue.Queue.Dequeue.Release.{release_refines, requeue_refines, remove_refines}
use swap_buffer_queue.Error.{Result, TryDequeueError}
use swap_buffer_queue.Queue.Dequeue.{BufferSlice}
use swap_buffer_queue.Queue.Dequeue.Answer.{Answers}
use swap_buffer_queue.Queue.Dequeue.{drop_queue}
use swap_buffer_queue.Queue.Dequeue.Drop.{drop_refines}
use swap_buffer_queue.Tests.Data.{waiting_queue, waiting, waiting-Repr}
use swap_buffer_queue.Queue.Resizing.{try_dequeue_and_resize}
use swap_buffer_queue.Queue.Resizing.Refine.{resize_refines}
use swap_buffer_queue.Slice.{drain_some}
use swap_buffer_queue.Slice.Laws.{drop_iter_refines}
use swap_buffer_queue.History.{
  Op, enqueue_op, dequeue_op, release_op, drain_op, Reply, Client, client, run, spec_run,
}
use swap_buffer_queue.History.Refine.{ClientRepr, run_refines}
use swap_buffer_queue.History.Fifo.{consumed, accepted, all_items, run_fifo}
use swap_buffer_queue.Tests.Data.{
  Cells, vec, drain, values, empty_queue, filled_queue, taken_queue, two_slice, filled, taken_all,
  empty_queue-Repr, filled-Repr, taken-Repr, taken-Waits,
}

try_enqueue_refines_example :
    (q : Queue Cells (Unit {0})) × (try_enqueue vec values no_notify 1 (7 ∷ []) filled_queue
      ≡ done (ok tt) q)
    × Repr buffer_laws (Unit {0}) q 0 (record filled { enqueued = 5 ∷ 6 ∷ 7 ∷ [] })
unfolding enqueue
try_enqueue_refines_example =
    try_enqueue_refines buffer_laws (array_laws buffer_laws cell_laws) no_notify 1 (7 ∷ [])
      filled_queue 0 filled filled-Repr (omega arith)

try_dequeue_refines_example :
    Refined buffer_laws (try_dequeue vec no_notify) filled_queue 0 (ok (5 ∷ 6 ∷ []), taken_all)
unfolding dequeue
try_dequeue_refines_example =
    try_dequeue_refines buffer_laws no_notify filled_queue 0 filled filled-Repr

release_refines_example :
    (q : Queue Cells (Unit {0})) × (release vec 0 0 2 taken_queue ≡ done tt q)
    × Free (at 0 q.buffers) 0 4
    × Repr buffer_laws (Unit {0}) q 1 (fresh 4)
release_refines_example =
    release_refines buffer_laws taken_queue 1 taken_all taken-Repr 0 (5 ∷ 6 ∷ []) taken-Waits

requeue_refines_example :
    (q : Queue Cells (Unit {0})) × (requeue vec 0 0 2 taken_queue ≡ done tt q)
    × Repr buffer_laws (Unit {0}) q 1 (record (fresh 4) { phase = requeued 0 (5 ∷ 6 ∷ []) })
unfolding requeue_phase
requeue_refines_example =
    requeue_refines buffer_laws taken_queue 1 taken_all taken-Repr 0 (5 ∷ 6 ∷ []) taken-Waits

remove_refines_example :
    (q : Queue Cells (Unit {0})) × (remove drain 0 0 taken_queue ≡ done 5 q)
    × Repr buffer_laws (Unit {0}) q 1 (record (fresh 4) { phase = taken 1 (6 ∷ []) })
remove_refines_example =
    remove_refines buffer_laws drain_laws taken_queue 1 taken_all taken-Repr 0 5 (6 ∷ []) refl
      taken-Waits

drop_iter_refines_example :
    (q : Queue Cells (Unit {0})) × (drain_some vec drain 1 0 two_slice taken_queue
      ≡ done (5 ∷ []) q)
    × Repr buffer_laws (Unit {0}) q 1 (record (fresh 4) { phase = requeued 1 (6 ∷ []) })
unfolding requeue_phase
drop_iter_refines_example =
    drop_iter_refines buffer_laws drain_laws 1 taken_queue 1 taken_all 0 (5 ∷ 6 ∷ []) 0 two_slice
      taken-Repr (refl, refl, refl, refl)

with_capacity_refines_example :
    (q : Queue Cells (Unit {0})) × (with_capacity vec tt vec_resize 4 ≡ some q)
    × Repr buffer_laws (Unit {0}) q 0 (fresh 4)
with_capacity_refines_example = with_capacity_refines buffer_laws tt resize_laws 4 (omega arith)

-- Two values come in, the first goes out, and the rest is requeued before the last is taken.
abbrev ops : List (Op (List ℕ))
ops =
    enqueue_op 0 (5 ∷ 6 ∷ [])
    ∷ dequeue_op
    ∷ drain_op 1
    ∷ enqueue_op 2 (7 ∷ [])
    ∷ dequeue_op
    ∷ release_op
    ∷ []

abbrev start : Client Cells (List ℕ) (Unit {0})
start = client empty_queue none

start-ClientRepr :
    ClientRepr buffer_laws (array_laws buffer_laws cell_laws) drain_laws no_notify start (fresh 4)
start-ClientRepr = record { index = 0; queue = empty_queue-Repr; held = tt }

run_refines_example :
    (c : Client Cells (List ℕ) (Unit {0})) × (run vec (λ s. s) values drain no_notify ops start
      ≡ done (spec_run (λ v. v) ops (fresh 4)).0 c)
    × ClientRepr buffer_laws
        (array_laws buffer_laws cell_laws)
        drain_laws
        no_notify
        c
        (spec_run (λ v. v) ops (fresh 4)).1
run_refines_example =
    run_refines buffer_laws (array_laws buffer_laws cell_laws) drain_laws no_notify ops start
      (fresh 4) (omega arith, (tt, (tt, (omega arith, (tt, (tt, tt)))))) start-ClientRepr

run_fifo_example :
    (replies : List (Reply (List ℕ) ℕ)) × (c : Client Cells (List ℕ) (Unit {0})) × (s : Spec ℕ)
    × (run vec (λ xs. xs) values drain no_notify ops start ≡ done replies c)
    × ClientRepr buffer_laws (array_laws buffer_laws cell_laws) drain_laws no_notify c s
    × (consumed (λ v. v) replies ++ all_items s ≡ accepted (λ v. v) replies)
run_fifo_example =
    run_fifo buffer_laws (array_laws buffer_laws cell_laws) drain_laws no_notify ops start (fresh 4)
      (omega arith, (tt, (tt, (omega arith, (tt, (tt, tt)))))) start-ClientRepr

-- The other buffer, of room for four, gets room for two, and two values.
resize_refines_example :
    (r : Result (BufferSlice (List ℕ)) TryDequeueError) × (q : Queue Cells (Unit {0})) × (index : ℕ)
    × (try_dequeue_and_resize vec vec_resize values no_notify
          (some 2)
          (some ((7 ∷ []) ∷ (8 ∷ []) ∷ []))
          filled_queue
        ≡ done r q)
    × Answers buffer_laws (ok (5 ∷ 6 ∷ [])) (1 - index) (taken 0 (5 ∷ 6 ∷ [])) r
    × Repr buffer_laws (Unit {0}) q index (record taken_all { room = 2; enqueued = 7 ∷ 8 ∷ [] })
resize_refines_example =
    resize_refines buffer_laws resize_laws (array_laws buffer_laws cell_laws) no_notify filled_queue
      0 filled filled-Repr (some 2) (some ((7 ∷ []) ∷ (8 ∷ []) ∷ [])) (omega arith) (omega arith)

-- The value that is enqueued is still there.
drop_refines_example :
    (q : Queue Cells (Unit {0})) × (index : ℕ) × (drop_queue vec waiting_queue ≡ done tt q)
    × Free (at (1 - index) q.buffers) 0 (length (at (1 - index) q.buffers))
    × Repr buffer_laws (Unit {0}) q index (record (fresh 4) { enqueued = 7 ∷ [] })
unfolding dequeue
drop_refines_example = drop_refines buffer_laws waiting_queue 1 waiting waiting-Repr
