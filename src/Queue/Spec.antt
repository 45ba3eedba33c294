-- ===== src/Queue/Spec.antt =====
-- What a queue promises: the values in it, in order, and the phase of its dequeuing side. There are
-- no buffers, words or indices here.
use swap_buffer_queue.Prelude.{
  ℕ, suc, Option, none, some, ◌+◌, Bool, not, List, [], ◌∷◌, ◌++◌, length, ltb, ◌==◌, if◌then◌else◌,
}
use swap_buffer_queue.Error.{Result, ok, err, TryDequeueError, empty, conflict}

-- `idle`: nothing is dequeued. `requeued`: items wait to be dequeued again. `taken`: a slice or an
-- iterator is out, which holds the lock. The number is the place of the first item in its buffer.
pub data Phase (X : Type 0) : Type 0 where
  idle : Phase X
  requeued : ℕ → List X → Phase X
  taken : ℕ → List X → Phase X

-- `room` is the capacity of the buffer that is enqueued into, `spare` that of the other.
pub record Spec (X : Type 0) : Type 0 where
  pub enqueued : List X
  pub room : ℕ
  pub spare : ℕ
  pub is_shut : Bool
  pub phase : Phase X

pub data Refusal : Type 0 where
  is_closed no_room : Refusal

module _ {X : Type 0} where
  unfoldable pub enqueue : List X → Spec X → Result (Unit {0}) Refusal × Spec X
  enqueue xs s =
      if length xs == 0
      then (ok tt, s)
      else if s.is_shut
      then (err Refusal.is_closed, s)
      else if ltb s.room (length s.enqueued + length xs)
      then (err no_room, s)
      else (ok tt, record s { enqueued = s.enqueued ++ xs })

  -- From `idle`: everything that is enqueued comes out at once, and the buffers change roles.
  unfoldable pub swap : Spec X → Result (List X) TryDequeueError × Spec X
  swap s =
      if length s.enqueued == 0
      then (err (if s.is_shut then TryDequeueError.closed else empty), s)
      else (
        ok s.enqueued,
        record s { enqueued = []; room = s.spare; spare = s.room; phase = taken 0 s.enqueued },
      )

  -- From `idle`, with room `n` and the items `xs` in the buffer that is enqueued into next: what is
  -- enqueued comes out, and the buffers change roles. If nothing is enqueued, what is inserted comes
  -- out, and they change roles twice. If that is nothing either, they change roles once for a new
  -- capacity, and not at all without.
  abbrev pub swap_resized :
      (resized : Bool) → ℕ → List X → Spec X → Result (List X) TryDequeueError × Spec X
  swap_resized resized n xs s =
      if not (length s.enqueued == 0)
      then (
        ok s.enqueued,
        record s { enqueued = xs; room = n; spare = s.room; phase = taken 0 s.enqueued },
      )
      else if not (length xs == 0)
      then (ok xs, record s { enqueued = []; spare = n; phase = taken 0 xs })
      else if resized
      then (err empty, record s { enqueued = xs; room = n; spare = s.room; phase = idle })
      else (err (if s.is_shut then TryDequeueError.closed else empty), record s { phase = idle })

  unfoldable pub dequeue_in : Phase X → Spec X → Result (List X) TryDequeueError × Spec X
  unfolding swap
  dequeue_in idle s = swap s
  dequeue_in (requeued start xs) s = (ok xs, record s { phase = taken start xs })
  dequeue_in (taken start xs) s = (err conflict, s)

  -- The same in every phase: nothing is resized or inserted unless the dequeuing side is idle.
  abbrev pub dequeue_resized :
      Phase X → (resized : Bool) → ℕ → List X → Spec X → Result (List X) TryDequeueError × Spec X
  dequeue_resized idle resized n xs s = swap_resized resized n xs s
  dequeue_resized (requeued start ys) resized n xs s = (ok ys, record s { phase = taken start ys })
  dequeue_resized (taken start ys) resized n xs s = (err conflict, s)

  unfoldable pub dequeue : Spec X → Result (List X) TryDequeueError × Spec X
  unfolding dequeue_in
  dequeue s = dequeue_in s.phase s

  -- What a slice or an iterator leaves when it is requeued.
  unfoldable pub requeue_phase : ℕ → List X → Phase X
  requeue_phase start xs = if ltb 0 (length xs) then requeued start xs else idle

  -- The next item of an iterator.
  unfoldable pub next : Phase X → Option X × Phase X
  next (taken start (x ∷ xs)) = (some x, taken (suc start) xs)
  next phase = (none, phase)
