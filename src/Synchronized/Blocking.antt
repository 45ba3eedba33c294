-- ===== src/Synchronized/Blocking.antt =====
-- The operations of src/synchronized.rs that wait: `try_enqueue` and `try_dequeue`, which spin,
-- register and look once more, and what the synchronous and asynchronous functions do with them. The
-- notifier is a parameter, with what `register` does to its state.
pub mod Enqueue
pub mod Parked
pub mod Awaited
pub mod Dequeue
use swap_buffer_queue.Prelude.{
  ℕ, zero, suc, Bool, true, false, Option, none, some, List, [], ◌∷◌, map, leb, if◌then◌else◌,
}
use swap_buffer_queue.Prelude.Run.{
  Cmd, Run, done, panic, fault, ◌>>=◌, ◌>>◌, pure, get, modify, unwrap,
}
use swap_buffer_queue.Error.{
  Result, ok, err, TryEnqueueError, insufficient_capacity, closed, TryDequeueError, empty, pending,
  conflict, DequeueError,
}
use swap_buffer_queue.Error as Error
use swap_buffer_queue.Loom.{spin_limit}
use swap_buffer_queue.Notify.{Notify}
use swap_buffer_queue.Buffer.{Buffer, InsertIntoBuffer}
use swap_buffer_queue.Queue.{Queue}
use swap_buffer_queue.Queue.Enqueue as Queue_enqueue
use swap_buffer_queue.Queue.Dequeue as Queue_dequeue
use swap_buffer_queue.Queue.Dequeue.{BufferSlice}

-- The `Err(TryEnqueueError::InsufficientCapacity(v)) if v.size() <= queue.capacity()` of a match.
abbrev pub waits_for_room :
    {V : Type 0} → (V → ℕ) → (capacity : ℕ) → Result (Unit {0}) (TryEnqueueError V) → Option V
waits_for_room size capacity (err (insufficient_capacity v)) =
    if leb (size v) capacity then some v else none
waits_for_room size capacity _ = none

-- The `Err(TryDequeueError::Empty | TryDequeueError::Pending)` of a match.
abbrev pub waits_for_items : {S : Type 0} → Result S TryDequeueError → Bool
waits_for_items (err empty) = true
waits_for_items (err pending) = true
waits_for_items _ = false

-- `none` is `unreachable!()`.
abbrev pub dequeue_err : TryDequeueError → Option DequeueError
dequeue_err TryDequeueError.closed = some Error.DequeueError.closed
dequeue_err conflict = some Error.DequeueError.conflict
dequeue_err _ = none

module _ {B S N V : Type 0} (buf : Buffer B S) (ins : InsertIntoBuffer B V) (notifier : Notify N)
    (register : N → N) (spurious : ℕ) where
  -- One `queue.try_enqueue(value)`, and whether the value waits for room.
  abbrev pub enqueue_round : V → Cmd (Queue B N) (Result (Unit {0}) (TryEnqueueError V) × Option V)
  enqueue_round value = do
    res ← Queue_enqueue.try_enqueue buf ins notifier spurious value
    q ← get
    pure (res, waits_for_room ins.size q.capacity res)

  -- `for _ in 0..SPIN_LIMIT`, with the number of rounds left: `ok` returns, `err` goes on.
  unfoldable pub spin_enqueue :
      (rounds : ℕ) → V → Cmd (Queue B N) (Result (Result (Unit {0}) (TryEnqueueError V)) V)
  spin_enqueue zero value = pure (err value)
  spin_enqueue (suc rounds) value = do
    answer ← enqueue_round value
    elim answer.1 [ some v ↦ spin_enqueue rounds v | none ↦ pure (ok answer.0) ]

  unfoldable pub try_enqueue :
      V → Cmd (Queue B N) (Result (Result (Unit {0}) (TryEnqueueError V)) V)
  unfolding spin_enqueue
  try_enqueue value = do
    spun ← spin_enqueue spin_limit value
    elim spun [
      | ok res ↦ pure (ok res)
      | err v ↦ do
        modify λ q. record q { notify = register q.notify }
        answer ← enqueue_round v
        elim answer.1 [ some v' ↦ pure (err v') | none ↦ pure (ok answer.0) ]
    ]

  -- The closure that `enqueue_async` polls, with the value that it keeps from one poll to the next;
  -- `none` is `Poll::Pending`.
  unfoldable pub poll_enqueue :
      Option V → Cmd (Queue B N) (Option (Result (Unit {0}) (TryEnqueueError V)) × Option V)
  unfolding try_enqueue
  poll_enqueue value = do
    v ← unwrap value
    answer ← try_enqueue v
    elim answer [ ok res ↦ pure (some res, none) | err v' ↦ pure (none, some v') ]

  -- `enqueue_sync`. Each wait is what `wait_until` answers, and what other threads do to the queue
  -- meanwhile; `none` if the caller still waits when the list of them ends.
  unfoldable pub enqueue_sync :
      (waits : List (Bool × (Queue B N → Queue B N)))
      → V
      → Cmd (Queue B N) (Option (Result (Unit {0}) (TryEnqueueError V)))
  unfolding try_enqueue
  enqueue_sync [] value = do
    answer ← try_enqueue value
    elim answer [ ok res ↦ pure (some res) | err v ↦ pure none ]
  enqueue_sync ((late, meanwhile) ∷ waits) value = do
    answer ← try_enqueue value
    elim answer [
      | ok res ↦ pure (some res)
      | err v ↦ do
        modify meanwhile
        elim late [
          | true ↦ do res ← Queue_enqueue.try_enqueue buf ins notifier spurious v; pure (some res)
          | false ↦ enqueue_sync waits v
        ]
    ]

  -- `enqueue`, which has no deadline, with what other threads do to the queue at each wait.
  abbrev pub enqueue :
      (meanwhile : List (Queue B N → Queue B N))
      → V
      → Cmd (Queue B N) (Option (Result (Unit {0}) (TryEnqueueError V)))
  enqueue meanwhile value = enqueue_sync (map (λ others. (false, others)) meanwhile) value

  -- `enqueue_timeout`: the waits say when its deadline has passed.
  abbrev pub enqueue_timeout :
      (waits : List (Bool × (Queue B N → Queue B N)))
      → V
      → Cmd (Queue B N) (Option (Result (Unit {0}) (TryEnqueueError V)))
  enqueue_timeout waits value = enqueue_sync waits value

module _ {B S N : Type 0} (buf : Buffer B S) (notifier : Notify N) (register : N → N) where
  unfoldable pub spin_dequeue :
      (rounds : ℕ) → Cmd (Queue B N) (Option (Result (BufferSlice S) TryDequeueError))
  spin_dequeue zero = pure none
  spin_dequeue (suc rounds) = do
    res ← Queue_dequeue.try_dequeue buf notifier
    if waits_for_items res then spin_dequeue rounds else pure (some res)

  unfoldable pub try_dequeue : Cmd (Queue B N) (Option (Result (BufferSlice S) TryDequeueError))
  unfolding spin_dequeue
  try_dequeue = do
    spun ← spin_dequeue spin_limit
    elim spun [
      | some res ↦ pure (some res)
      | none ↦ do
        modify λ q. record q { notify = register q.notify }
        res ← Queue_dequeue.try_dequeue buf notifier
        pure (if waits_for_items res then none else some res)
    ]

  -- `res.map_err(dequeue_err)`
  abbrev pub map_dequeue_err :
      Result (BufferSlice S) TryDequeueError → Cmd (Queue B N) (Result (BufferSlice S) DequeueError)
  map_dequeue_err (ok s) = pure (ok s)
  map_dequeue_err (err e) = do e' ← unwrap (dequeue_err e); pure (err e')

  -- One poll of `dequeue_async`; `none` is `Poll::Pending`.
  unfoldable pub poll_dequeue : Cmd (Queue B N) (Option (Result (BufferSlice S) DequeueError))
  unfolding try_dequeue
  poll_dequeue = do
    answer ← try_dequeue
    elim answer [ none ↦ pure none | some res ↦ do res' ← map_dequeue_err res; pure (some res') ]

  -- `dequeue_sync`, with the waits as in `enqueue_sync`.
  unfoldable pub dequeue_sync :
      (waits : List (Bool × (Queue B N → Queue B N)))
      → Cmd (Queue B N) (Option (Result (BufferSlice S) TryDequeueError))
  unfolding try_dequeue
  dequeue_sync [] = try_dequeue
  dequeue_sync ((late, meanwhile) ∷ waits) = do
    answer ← try_dequeue
    elim answer [
      | some res ↦ pure (some res)
      | none ↦ do
        modify meanwhile
        elim late [
          | true ↦ do res ← Queue_dequeue.try_dequeue buf notifier; pure (some res)
          | false ↦ dequeue_sync waits
        ]
    ]

  -- `dequeue`, which has no deadline, with what other threads do to the queue at each wait.
  unfoldable pub dequeue :
      (meanwhile : List (Queue B N → Queue B N))
      → Cmd (Queue B N) (Option (Result (BufferSlice S) DequeueError))
  unfolding dequeue_sync
  dequeue meanwhile = do
    answer ← dequeue_sync (map (λ others. (false, others)) meanwhile)
    elim answer [ none ↦ pure none | some res ↦ do res' ← map_dequeue_err res; pure (some res') ]

  -- `dequeue_timeout`: the waits say when its deadline has passed.
  abbrev pub dequeue_timeout :
      (waits : List (Bool × (Queue B N → Queue B N)))
      → Cmd (Queue B N) (Option (Result (BufferSlice S) TryDequeueError))
  dequeue_timeout waits = dequeue_sync waits
