-- ===== src/Tests/Pending.antt =====
-- A dequeuing finds two cells reserved and none acknowledged, then the values 5 and 6 come in.
use swap_buffer_queue.Prelude.{ℕ, ◌≡◌, List, [], ◌∷◌, arith, refl}
use swap_buffer_queue.Prelude.Run.{done}
use swap_buffer_queue.Error.{ok, err, pending}
use swap_buffer_queue.Notify.{no_notify}
use swap_buffer_queue.Word.{dequeuing_locked}
use swap_buffer_queue.Buffer.Vec.Laws.{buffer_laws}
use swap_buffer_queue.Two.{at}
use swap_buffer_queue.Queue.{Queue}
use swap_buffer_queue.Queue.Repr.{Waits}
use swap_buffer_queue.Queue.Dequeue.{spin_or_pending, try_dequeue}
use swap_buffer_queue.Queue.Dequeue.Spin.{locked, slice_of}
use swap_buffer_queue.Queue.Dequeue.Pending.{left_pending, pending_resumes}
use swap_buffer_queue.Tests.Data.{Cells, vec, empty_queue, two_cells, empty_cells, two-Free}

abbrev reserved_queue : Queue Cells (Unit {0})
reserved_queue = record empty_queue { enqueuing_capacity = 9; dequeuing_length = dequeuing_locked }

-- The insertions that were under way.
abbrev insertions : Queue Cells (Unit {0}) → Queue Cells (Unit {0})
insertions q = record q {
  buffers = record { first = two_cells; second = empty_cells };
  buffers_length = record { first = 2; second = 0 };
}

inserted-Waits :
    Waits
      (buffer_laws {T = ℕ})
      (Unit {0})
      (insertions (left_pending buffer_laws 0 2 reserved_queue))
      0
      0
      (5 ∷ 6 ∷ [])
unfolding at
inserted-Waits = record {
  acked = refl;
  fits = omega arith;
  held = (refl, (refl, tt));
  clean_below = λ k low high. absurd (omega (arith, high));
  clean_above = two-Free;
}

none_acknowledged : ◌≡◌ {A = ℕ} (at 0 reserved_queue.buffers_length) 0
unfolding at
none_acknowledged = refl

pending_resumes_example :
    (r : List ℕ) × (spin_or_pending vec 0 2 reserved_queue
      ≡ done (err pending) (left_pending buffer_laws 0 2 reserved_queue))
    × (try_dequeue vec no_notify (insertions (left_pending buffer_laws 0 2 reserved_queue))
        ≡ done
            (ok (slice_of 0 0 2 r))
            (locked (insertions (left_pending buffer_laws 0 2 reserved_queue))))
    × (r ≡ 5 ∷ 6 ∷ [])
pending_resumes_example =
    pending_resumes buffer_laws no_notify insertions reserved_queue 0 0 (5 ∷ 6 ∷ []) (omega arith)
      (omega arith) (omega (arith, none_acknowledged)) refl inserted-Waits
