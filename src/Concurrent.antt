-- ===== src/Concurrent.antt =====
-- Several threads on one queue of src/queue.rs, in any order, one atomic access or one access of a
-- buffer at a time: the steps of `try_enqueue`, `try_dequeue`, `requeue`, `release`, `remove`, `close`
-- and `reopen`. A cell of a buffer is only known to be initialised or not. The memory is sequentially
-- consistent.
pub mod Inv
pub mod Safety
pub mod Progress
use swap_buffer_queue.Prelude.{
  ℕ, ◌+◌, ◌-◌, ◌^◌, ◌≤◌, ◌<◌, ◌≡◌, ◌≢◌, Bool, true, false, ◌&&◌, Option, none, some, ltb, leb, ◌==◌,
  if◌then◌else◌,
}
use swap_buffer_queue.Error.{ok, err, conflict}
use swap_buffer_queue.Word.{add_usize, sub_usize, dequeuing_locked}
use swap_buffer_queue.Word.Enqueuing
use swap_buffer_queue.Word.Dequeuing
use swap_buffer_queue.Threads.{update}

-- The atomics of `Queue`, and which cells of its two buffers are initialised. What the struct holds
-- twice is a function of the buffer's index.
pub record Shared : Type 0 where
  pub enqueuing_capacity : ℕ
  pub dequeuing_length : ℕ
  pub buffers_length : ℕ → ℕ
  pub initialised : ℕ → ℕ → Bool

-- The cells of a buffer from `start` on, `size` of them, become initialised or not.
abbrev pub mark : (ℕ → ℕ → Bool) → (buffer start size : ℕ) → Bool → ℕ → ℕ → Bool
mark cells buffer start size b i k =
    if (i == buffer) && (leb start k && ltb k (start + size)) then b else cells i k

-- Where a thread stands, with the local variables that are live there.
pub data Pc : Type 0 where
  idle : Pc
  -- `try_enqueue`: before the checks and the compare-and-swap of a round
  enqueuing : (value enqueuing : ℕ) → Pc
  -- before `insert_into`
  inserting : (size enqueuing : ℕ) → Pc
  -- before the `fetch_add` on the length
  inserted : (size enqueuing : ℕ) → Pc
  -- after a panic of `insert_into`: the reservation is never acknowledged
  panicked : (size enqueuing : ℕ) → Pc
  -- `try_dequeue_internal`: its start, with the dequeuing word
  dequeuing : (word : ℕ) → Pc
  -- before the test for an empty buffer
  looking : (word enqueuing : ℕ) → Pc
  -- before the compare-and-swap of a round
  swapping : (next_buffer_index enqueuing : ℕ) → Pc
  -- `try_dequeue_spin`: before a round
  spinning : (index length : ℕ) → Pc
  -- a slice or an iterator is out
  holding : (index start end : ℕ) → Pc
  -- `release`: before the store of the length, and before that of the dequeuing word
  cleared : (index : ℕ) → Pc
  emptied : (index : ℕ) → Pc

-- The range that a reservation with this word begins at, in its buffer.
unfoldable pub reserved_from : (ℕ → ℕ) → (enq : ℕ) → ℕ
reserved_from capacity enq =
    sub_usize (capacity (Enqueuing.buffer_index enq)) (Enqueuing.remaining_capacity enq)

-- One step of one thread. From `idle` any call may follow; `capacity` is that of each buffer. A weak
-- compare-and-swap may fail at any time, and the rounds of the spin loop are left open.
-- Values are numbered, and `sizes` is the size that each reports; only one of a non-zero size reserves
-- anything. An `insert_into` that panics may have written any part of its range before that.
pub data Move (capacity sizes : ℕ → ℕ) (m : Shared) : Pc → Shared → Pc → Type 0 where
  load : {value : ℕ} → Move capacity sizes m idle m (enqueuing value m.enqueuing_capacity)
  refuse_closed :
      {value enq : ℕ}
      → Enqueuing.is_closed enq ≡ true
      → Move capacity sizes m (enqueuing value enq) m idle
  refuse_room :
      {value enq : ℕ}
      → Enqueuing.try_reserve enq (sizes value) ≡ none
      → Move capacity sizes m (enqueuing value enq) m idle
  reserve :
      {value enq next_enq : ℕ}
      → 0 < sizes value
      → Enqueuing.is_closed enq ≡ false
      → Enqueuing.try_reserve enq (sizes value) ≡ some next_enq
      → m.enqueuing_capacity ≡ enq
      → Move capacity sizes m
          (enqueuing value enq)
          (record m { enqueuing_capacity = next_enq })
          (inserting (sizes value) enq)
  reserve_again :
      {value enq : ℕ}
      → Move capacity sizes m (enqueuing value enq) m (enqueuing value m.enqueuing_capacity)
  insert :
      {size enq : ℕ}
      → Move capacity sizes m
          (inserting size enq)
          (record m {
            initialised =
                mark m.initialised
                  (Enqueuing.buffer_index enq)
                  (reserved_from capacity enq)
                  size
                  true;
          })
          (inserted size enq)
  insert_panics :
      {size enq written : ℕ}
      → written ≤ size
      → Move capacity sizes m
          (inserting size enq)
          (record m {
            initialised =
                mark m.initialised
                  (Enqueuing.buffer_index enq)
                  (reserved_from capacity enq)
                  written
                  true;
          })
          (panicked size enq)
  acknowledge :
      {size enq : ℕ}
      → Move capacity sizes m
          (inserted size enq)
          (record m {
            buffers_length =
                update m.buffers_length
                  (Enqueuing.buffer_index enq)
                  (add_usize (m.buffers_length (Enqueuing.buffer_index enq)) size);
          })
          idle
  close :
      Move capacity sizes m idle
        (record m { enqueuing_capacity = Enqueuing.close m.enqueuing_capacity })
        idle
  reopen :
      Move capacity sizes m idle
        (record m { enqueuing_capacity = Enqueuing.reopen m.enqueuing_capacity })
        idle
  lock :
      {word : ℕ}
      → Dequeuing.try_from_atomic m.dequeuing_length ≡ ok word
      → Move capacity sizes m idle
          (record m { dequeuing_length = dequeuing_locked })
          (dequeuing word)
  lock_conflict :
      Dequeuing.try_from_atomic m.dequeuing_length ≡ err conflict
      → Move capacity sizes m idle (record m { dequeuing_length = dequeuing_locked }) idle
  resume :
      {word : ℕ}
      → Dequeuing.buffer_len word ≢ 0
      → Move capacity sizes m
          (dequeuing word)
          m
          (spinning (Dequeuing.buffer_index word) (Dequeuing.buffer_len word))
  look :
      {word : ℕ}
      → Dequeuing.buffer_len word ≡ 0
      → Move capacity sizes m (dequeuing word) m (looking word m.enqueuing_capacity)
  nothing :
      {word enq : ℕ}
      → Enqueuing.remaining_capacity enq ≡ capacity (Enqueuing.buffer_index enq)
      → Move capacity sizes m (looking word enq) (record m { dequeuing_length = word }) idle
  something :
      {word enq : ℕ}
      → Enqueuing.remaining_capacity enq ≢ capacity (Enqueuing.buffer_index enq)
      → Move capacity sizes m (looking word enq) m (swapping (Dequeuing.buffer_index word) enq)
  swap :
      {next enq next_enq : ℕ}
      → Enqueuing.new next (capacity next) ≡ some next_enq
      → m.enqueuing_capacity ≡ enq
      → reserved_from capacity enq ≢ 0
      → Move capacity sizes m
          (swapping next enq)
          (record m { enqueuing_capacity = Enqueuing.with_closed next_enq enq })
          (spinning (Enqueuing.buffer_index enq) (reserved_from capacity enq))
  swap_empty :
      {next enq next_enq : ℕ}
      → Enqueuing.new next (capacity next) ≡ some next_enq
      → m.enqueuing_capacity ≡ enq
      → reserved_from capacity enq ≡ 0
      → Move capacity sizes m
          (swapping next enq)
          (record m { enqueuing_capacity = Enqueuing.with_closed next_enq enq })
          (emptied (Enqueuing.buffer_index enq))
  swap_again :
      {next enq : ℕ}
      → Move capacity sizes m (swapping next enq) m (swapping next m.enqueuing_capacity)
  take :
      {index len : ℕ}
      → len ≤ m.buffers_length index
      → Move capacity sizes m
          (spinning index len)
          m
          (holding index (m.buffers_length index - len) (m.buffers_length index))
  spin :
      {index len : ℕ}
      → m.buffers_length index < len
      → Move capacity sizes m (spinning index len) m (spinning index len)
  give_up :
      {index len : ℕ}
      → Move capacity sizes m
          (spinning index len)
          (record m { dequeuing_length = Dequeuing.new index len })
          idle
  remove :
      {index start end : ℕ}
      → start < end
      → Move capacity sizes m
          (holding index start end)
          (record m { initialised = mark m.initialised index start 1 false })
          (holding index (start + 1) end)
  requeue :
      {index start end : ℕ}
      → start < end
      → Move capacity sizes m
          (holding index start end)
          (record m { dequeuing_length = Dequeuing.new index (end - start) })
          idle
  clear :
      {index start end : ℕ}
      → Move capacity sizes m
          (holding index start end)
          (record m { initialised = mark m.initialised index start (end - start) false })
          (cleared index)
  store_length :
      {index : ℕ}
      → Move capacity sizes m
          (cleared index)
          (record m { buffers_length = update m.buffers_length index 0 })
          (emptied index)
  store_word :
      {index : ℕ}
      → Move capacity sizes m
          (emptied index)
          (record m { dequeuing_length = Dequeuing.new index 0 })
          idle

-- An index from `n` on names no thread.
pub record System : Type 0 where
  pub mem : Shared
  pub pc : ℕ → Pc

pub data Step (capacity sizes : ℕ → ℕ) (n : ℕ) (s : System) : System → Type 0 where
  pick :
      (i : ℕ) {m : Shared} {p : Pc}
      → i < n
      → Move capacity sizes s.mem (s.pc i) m p
      → Step capacity sizes n s (record { mem = m; pc = update s.pc i p })

-- A new queue, on which no thread works yet.
abbrev pub init : (ℕ → ℕ) → (enqueuing_capacity : ℕ) → System
init capacity word = record {
  mem = record {
    enqueuing_capacity = word;
    dequeuing_length = Dequeuing.new 1 0;
    buffers_length = λ _. 0;
    initialised = λ _ _. false;
  };
  pc = λ _. idle;
}

-- The states that `n` threads can reach; the word of the new queue is made as `Queue::new` does.
pub data Reach (capacity sizes : ℕ → ℕ) (n : ℕ) : System → Type 0 where
  fresh :
      {word : ℕ}
      → Enqueuing.new 0 (capacity 0) ≡ some word
      → Reach capacity sizes n (init capacity word)
  later :
      {s t : System}
      → Reach capacity sizes n s
      → Step capacity sizes n s t
      → Reach capacity sizes n t
