-- ===== src/Tests/Iter.antt =====
-- The theorem on the iterator of a synchronized queue, where two items have been taken and two others
-- are enqueued while the caller waits.
use swap_buffer_queue.Prelude.{ℕ, ◌-◌, ◌≡◌, refl, some, [], ◌∷◌, arith}
use swap_buffer_queue.Prelude.Run.{done}
use swap_buffer_queue.Notify.{no_notify}
use swap_buffer_queue.Buffer.Vec.Laws.{buffer_laws, drain_laws}
use swap_buffer_queue.Two.{at}
use swap_buffer_queue.Queue.{Queue}
use swap_buffer_queue.Queue.Spec.{Spec, taken}
use swap_buffer_queue.Queue.Control.{fresh}
use swap_buffer_queue.Queue.Repr.{Repr, Waits}
use swap_buffer_queue.Slice.{BufferIter}
use swap_buffer_queue.Slice.Laws.{Ranges}
use swap_buffer_queue.Synchronized.Iter.{Flatten, iter_next}
use swap_buffer_queue.Synchronized.Iter.Laws.{GoesOn, at_front, iter_next_refines}
use swap_buffer_queue.Tests.Data.{
  Cells, vec, drain, empty_cells, empty-Free, taken_queue, filled_queue, filled,
}
use swap_buffer_queue.Tests.Blocking.{filled-Awaits}

abbrev exhausted : Spec ℕ
exhausted = record (fresh {X = ℕ} 4) { phase = taken 2 [] }

-- The two items have been moved out of it.
abbrev drained_queue : Queue Cells (Unit {0})
drained_queue = record taken_queue {
  buffers = record { first = empty_cells; second = empty_cells };
}

exhausted-Waits : Waits (buffer_laws {T = ℕ}) (Unit {0}) drained_queue 0 2 []
unfolding at
exhausted-Waits = record {
  acked = refl;
  fits = omega arith;
  held = tt;
  clean_below = λ k low high. empty-Free k low (omega (arith, high));
  clean_above = λ k low high. empty-Free k (omega (arith, low)) high;
}

exhausted-Repr : Repr (buffer_laws {T = ℕ}) (Unit {0}) drained_queue 1 exhausted
unfolding at
exhausted-Repr = record {
  index_small = omega arith;
  room_small = omega arith;
  spare_small = omega arith;
  within = omega arith;
  word = refl;
  room_slots = refl;
  spare_slots = refl;
  acked = refl;
  held = tt;
  clean = empty-Free;
  capacity = refl;
  phase = (refl, exhausted-Waits);
}

abbrev at_end : BufferIter
at_end = record { queue = 0; buffer_index = 0; start = 2; end = 2 }

at_end-Ranges : Ranges {X = ℕ} at_end 0 2 []
at_end-Ranges = record { buffer_index = refl; start = refl; end = refl }

iter_next_refines_example :
    (q : Queue Cells (Unit {0})) × (index : ℕ) × (next' : Flatten) × (iter_next vec drain no_notify
        (λ n. n)
        0
        (((λ q. filled_queue) ∷ []) ∷ [])
        (at_front at_end)
        drained_queue
      ≡ done (some (some 5), next') q)
    × GoesOn {X = ℕ} next' (1 - index) (5 ∷ 6 ∷ [])
    × Unit {0}
    × Repr buffer_laws (Unit {0}) q index (record (fresh 4) { phase = taken 1 (6 ∷ []) })
iter_next_refines_example =
    iter_next_refines buffer_laws drain_laws no_notify (λ n. n) 0 ((λ q. filled_queue) ∷ []) [] []
      drained_queue filled_queue 1 (fresh 4) filled 2 at_end exhausted-Repr at_end-Ranges
      filled-Awaits refl
