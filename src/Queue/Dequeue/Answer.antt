-- ===== src/Queue/Dequeue/Answer.antt =====
-- When an answer of the dequeuing code is that of the abstract queue.
use swap_buffer_queue.Prelude.{ℕ, ◌+◌, ◌-◌, ◌≡◌, List, length}
use swap_buffer_queue.Prelude.Run.{Cmd, done}
use swap_buffer_queue.Error.{Result, ok, err, TryDequeueError}
use swap_buffer_queue.Buffer.{Buffer, BufferLaws}
use swap_buffer_queue.Queue.{Queue}
use swap_buffer_queue.Queue.Spec.{Phase, idle, requeued, taken, Spec}
use swap_buffer_queue.Queue.Repr.{Repr}
use swap_buffer_queue.Queue.Dequeue.{BufferSlice}

module _ {B S X : Type 0} {buf : Buffer B S} (laws : BufferLaws X buf) where
  open laws use {contents}

  -- The slice or the error that the code returns, against that of the abstract queue: a slice shows
  -- the items that the phase holds, and its range is where they stand.
  abbrev pub Shows : BufferSlice S → (index : ℕ) → Phase X → Type 0
  Shows r index idle = ⊥
  Shows r index (requeued start xs) = ⊥
  Shows r index (taken start xs) =
      (r.buffer_index ≡ index)
      × (r.start ≡ start)
      × (r.end ≡ start + length xs)
      × (contents r.slice ≡ xs)

  abbrev pub Answers :
      Result (List X) TryDequeueError
      → (index : ℕ) → Phase X
      → Result (BufferSlice S) TryDequeueError
      → Type 0
  Answers (err e) index phase code = code ≡ err e
  Answers (ok xs) index phase code =
      (r : BufferSlice S) × (code ≡ ok r) × (contents r.slice ≡ xs) × Shows r index phase

-- An error leaves the roles of the buffers as they are.
abbrev pub Keeps : {X : Type 0} → Result (List X) TryDequeueError → (before after : ℕ) → Type 0
Keeps (ok xs) before after = Unit
Keeps (err e) before after = after ≡ before

module _ {B S X : Type 0} {buf : Buffer B S} (laws : BufferLaws X buf) {N : Type 0} where
  -- A run from `q` that ends as the abstract answer and state say.
  abbrev pub Refined :
      Cmd (Queue B N) (Result (BufferSlice S) TryDequeueError)
      → Queue B N
      → ℕ
      → Result (List X) TryDequeueError × Spec X
      → Type 0
  Refined code q index answer =
      (r : Result (BufferSlice S) TryDequeueError) × (q' : Queue B N) × (index' : ℕ) × (code q
        ≡ done r q')
      × Answers laws answer.0 (1 - index') answer.1.phase r
      × Keeps answer.0 index index'
      × Repr laws N q' index' answer.1
