-- ===== src/Tests/Data.antt =====
-- The queues at which the theorems are applied, and the abstract queues that they stand for.
use swap_buffer_queue.Prelude.{ℕ, zero, suc, refl, none, some, List, [], ◌∷◌, arith}
use swap_buffer_queue.Prelude.Slots.{Free}
use swap_buffer_queue.Prelude.Free.{get_elem?-replicate}
use swap_buffer_queue.Word.{dequeuing_locked}
use swap_buffer_queue.Buffer.{Buffer, Drain, InsertIntoBuffer}
use swap_buffer_queue.Buffer.Vec.{VecBuffer}
use swap_buffer_queue.Buffer.Vec.Laws.{buffer_laws, cell_laws, drain_laws}
use swap_buffer_queue.Buffer.Vec.Laws as Vec
use swap_buffer_queue.Buffer.Insert as Insert
use swap_buffer_queue.Two.{at}
use swap_buffer_queue.Queue.{Queue}
use swap_buffer_queue.Queue.Dequeue.{BufferSlice}
use swap_buffer_queue.Queue.Spec.{Spec, requeued, taken}
use swap_buffer_queue.Queue.Control.{fresh}
use swap_buffer_queue.Queue.Repr.{Repr, Waits}

abbrev pub Cells : Type 0
Cells = VecBuffer ℕ

abbrev pub vec : Buffer Cells (List ℕ)
vec = Vec.buffer

abbrev pub drain : Drain Cells ℕ
drain = Vec.drain

abbrev pub values : InsertIntoBuffer Cells (List ℕ)
values = Insert.array Vec.cell_buffer

-- Room for four in each buffer.
abbrev pub empty_cells : Cells
empty_cells = none ∷ none ∷ none ∷ none ∷ []

abbrev pub two_cells : Cells
two_cells = some 5 ∷ some 6 ∷ none ∷ none ∷ []

abbrev pub one_cell : Cells
one_cell = some 7 ∷ none ∷ none ∷ none ∷ []

-- The slots after the items are empty.
pub empty-Free : Free empty_cells 0 4
empty-Free k low high = get_elem?-replicate 4 k none high

pub two-Free : Free two_cells 2 4
two-Free zero low high = absurd (omega (arith, low))
two-Free (suc zero) low high = absurd (omega (arith, low))
two-Free (suc (suc k)) low high = get_elem?-replicate 2 k none (omega (arith, high))

one-Free : Free one_cell 1 4
one-Free zero low high = absurd (omega (arith, low))
one-Free (suc k) low high = get_elem?-replicate 3 k none (omega (arith, high))

abbrev pub empty_queue : Queue Cells (Unit {0})
empty_queue = record {
  enqueuing_capacity = 8;
  dequeuing_length = 1;
  buffers = record { first = empty_cells; second = empty_cells };
  buffers_length = record { first = 0; second = 0 };
  capacity = 4;
  notify = tt;
}

-- Two values are enqueued.
abbrev pub filled_queue : Queue Cells (Unit {0})
filled_queue = record empty_queue {
  enqueuing_capacity = 4;
  buffers = record { first = two_cells; second = empty_cells };
  buffers_length = record { first = 2; second = 0 };
}

-- They are dequeued, as a slice.
abbrev pub taken_queue : Queue Cells (Unit {0})
taken_queue = record filled_queue { enqueuing_capacity = 9; dequeuing_length = dequeuing_locked }

abbrev pub two_slice : BufferSlice (List ℕ)
two_slice = record { buffer_index = 0; start = 0; end = 2; slice = 5 ∷ 6 ∷ [] }

abbrev pub filled : Spec ℕ
filled = record (fresh {X = ℕ} 4) { enqueued = 5 ∷ 6 ∷ [] }

abbrev pub taken_all : Spec ℕ
taken_all = record (fresh {X = ℕ} 4) { phase = taken 0 (5 ∷ 6 ∷ []) }

pub empty_queue-Repr : Repr (buffer_laws {T = ℕ}) (Unit {0}) empty_queue 0 (fresh 4)
unfolding at
empty_queue-Repr = record {
  index_small = omega arith;
  room_small = omega arith;
  spare_small = omega arith;
  within = omega arith;
  word = refl;
  room_slots = refl;
  spare_slots = refl;
  acked = refl;
  held = tt;
  clean = empty-Free;
  capacity = refl;
  phase = (refl, refl, empty-Free);
}

pub filled-Repr : Repr (buffer_laws {T = ℕ}) (Unit {0}) filled_queue 0 filled
unfolding at
filled-Repr = record {
  index_small = omega arith;
  room_small = omega arith;
  spare_small = omega arith;
  within = omega arith;
  word = refl;
  room_slots = refl;
  spare_slots = refl;
  acked = refl;
  held = (refl, (refl, tt));
  clean = two-Free;
  capacity = refl;
  phase = (refl, refl, empty-Free);
}

pub taken-Waits : Waits (buffer_laws {T = ℕ}) (Unit {0}) taken_queue 0 0 (5 ∷ 6 ∷ [])
unfolding at
taken-Waits = record {
  acked = refl;
  fits = omega arith;
  held = (refl, (refl, tt));
  clean_below = λ k low high. absurd (omega (arith, high));
  clean_above = two-Free;
}

pub taken-Repr : Repr (buffer_laws {T = ℕ}) (Unit {0}) taken_queue 1 taken_all
unfolding at
taken-Repr = record {
  index_small = omega arith;
  room_small = omega arith;
  spare_small = omega arith;
  within = omega arith;
  word = refl;
  room_slots = refl;
  spare_slots = refl;
  acked = refl;
  held = tt;
  clean = empty-Free;
  capacity = refl;
  phase = (refl, taken-Waits);
}

-- Two values wait to be dequeued again, and one is enqueued.
abbrev pub waiting_queue : Queue Cells (Unit {0})
waiting_queue = record taken_queue {
  enqueuing_capacity = 7;
  dequeuing_length = 4;
  buffers = record { first = two_cells; second = one_cell };
  buffers_length = record { first = 2; second = 1 };
}

abbrev pub waiting : Spec ℕ
waiting = record (fresh {X = ℕ} 4) { enqueued = 7 ∷ []; phase = requeued 0 (5 ∷ 6 ∷ []) }

pub waiting-Repr : Repr (buffer_laws {T = ℕ}) (Unit {0}) waiting_queue 1 waiting
unfolding at
waiting-Repr = record {
  index_small = omega arith;
  room_small = omega arith;
  spare_small = omega arith;
  within = omega arith;
  word = refl;
  room_slots = refl;
  spare_slots = refl;
  acked = refl;
  held = (refl, tt);
  clean = one-Free;
  capacity = refl;
  phase = (
    refl,
    omega arith,
    record {
      acked = refl;
      fits = omega arith;
      held = (refl, (refl, tt));
      clean_below = λ k low high. absurd (omega (arith, high));
      clean_above = two-Free;
    },
  );
}
