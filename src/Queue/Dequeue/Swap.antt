-- ===== src/Queue/Dequeue/Swap.antt =====
-- The swap of the buffers in `try_dequeue_internal`, and the calls that come to it.
use swap_buffer_queue.Prelude.{
  ℕ, ◌-◌, ◌≤◌, ◌<◌, ◌≡◌, arith, Option, Bool, not, ◌&&◌, ◌==◌, if◌then◌else◌,
}
use swap_buffer_queue.Prelude.Run.{Cmd, done}
use swap_buffer_queue.Error.{Result, err, TryDequeueError, empty, closed}
use swap_buffer_queue.Word.{sub_usize}
use swap_buffer_queue.Word.Enqueuing.Laws as Enqueuing
use swap_buffer_queue.Word.Dequeuing.Laws as Words
use swap_buffer_queue.Buffer.{Buffer}
use swap_buffer_queue.Two.{at, put, at-put_self, at-put_back}
use swap_buffer_queue.Queue.{Queue}
use swap_buffer_queue.Queue.Repr.{max_capacity}
use swap_buffer_queue.Queue.Dequeue.{
  BufferSlice, run_resize, add_inserted, after_swap, swap_buffers, try_dequeue_step,
}

module _ {B N : Type 0} where
  -- The queue after the closure has run on its buffer.
  abbrev pub resized_queue : Queue B N → (index : ℕ) → B → (inserted : ℕ) → Queue B N
  resized_queue q index b inserted =
      add_inserted index inserted (record q { buffers = put index b q.buffers })

  pub buffers-add_inserted :
      (index inserted : ℕ) (q : Queue B N) → (add_inserted index inserted q).buffers ≡ q.buffers
  unfolding add_inserted
  buffers-add_inserted index inserted q = ground arith

  pub enqueuing_capacity-add_inserted :
      (index inserted : ℕ) (q : Queue B N)
      → (add_inserted index inserted q).enqueuing_capacity ≡ q.enqueuing_capacity
  unfolding add_inserted
  enqueuing_capacity-add_inserted index inserted q = ground arith

module _ {B S N : Type 0} (buf : Buffer B S)
    (retry : ℕ → Cmd (Queue B N) (Result (BufferSlice S) TryDequeueError)) (notify : N → N) where
  -- The queue once the other buffer is enqueued into, with `inserted` of its capacity used up.
  abbrev pub swapped : Queue B N → (index next_capa inserted : ℕ) → Bool → Queue B N
  swapped q index next_capa inserted shut = record q {
    enqueuing_capacity = Enqueuing.word_of (1 - index) (next_capa - inserted) shut;
    capacity = next_capa;
    notify = notify q.notify;
  }

  pub try_dequeue_step-idle :
      (q : Queue B N) (index remaining : ℕ) (shut resized : Bool) (inserted : ℕ)
      (resize : Option (Cmd B (Bool × ℕ))) (b : B)
      → Enqueuing.Fits index remaining
      → q.enqueuing_capacity ≡ Enqueuing.word_of index remaining shut
      → run_resize resize (at (1 - index) q.buffers) ≡ done (resized, inserted) b
      → try_dequeue_step buf retry (Words.word_of (1 - index) 0) notify resize q ≡ (
          if (remaining == buf.capacity (at index q.buffers)) && not resized && (inserted == 0)
          then done
              (err (if shut then closed else empty))
              (record (resized_queue q (1 - index) b inserted) {
                dequeuing_length = Words.word_of (1 - index) 0;
              })
          else swap_buffers buf retry notify
              (1 - index)
              (buf.capacity b)
              inserted
              (buf.capacity (at index q.buffers))
              (resized_queue q (1 - index) b inserted))
  unfolding try_dequeue_step
  try_dequeue_step-idle q index remaining shut resized inserted resize b fits word outcome =
      ground (
        arith,
        Words.buffer_index-word_of (1 - index) 0 (omega arith) (omega arith),
        Words.buffer_len-word_of (1 - index) 0 (omega arith) (omega arith),
        buffers-add_inserted (1 - index) inserted
            (record q { buffers = put (1 - index) b q.buffers }),
        enqueuing_capacity-add_inserted (1 - index) inserted
            (record q { buffers = put (1 - index) b q.buffers }),
        Enqueuing.buffer_index-word_of index remaining shut fits,
        Enqueuing.remaining_capacity-word_of index remaining shut fits,
        Enqueuing.is_closed-word_of index remaining shut fits,
        at-put_self (1 - index) b q.buffers,
        at-put_back index b q.buffers (omega arith),
      )

  module _ (q : Queue B N) (index next_capa inserted room filled : ℕ) (shut : Bool)
      (index_small : index < 2) (next_small : next_capa < max_capacity)
      (room_small : room < max_capacity) (filled_fits : filled ≤ room)
      (word : q.enqueuing_capacity ≡ Enqueuing.word_of index (room - filled) shut) where
    pub swap_buffers-done :
        inserted ≤ next_capa
        → swap_buffers buf retry notify (1 - index) next_capa inserted room q
          ≡ after_swap buf retry index filled inserted (swapped q index next_capa inserted shut)
    unfolding swap_buffers
    swap_buffers-done inserted_fits =
        let left : sub_usize next_capa inserted ≡ next_capa - inserted = omega arith in
        let used : sub_usize room (room - filled) ≡ filled = omega arith in
        rw (
          word,
          left,
          Enqueuing.new-word_of (1 - index) (next_capa - inserted) (omega arith),
          Enqueuing.buffer_index-word_of index (room - filled) shut (omega arith),
          Enqueuing.remaining_capacity-word_of index (room - filled) shut (omega arith),
          Enqueuing.with_closed-word_of (1 - index) (next_capa - inserted) shut (omega arith) index
              (room - filled) (omega arith),
          used,
        )
