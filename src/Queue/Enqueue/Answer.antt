-- ===== src/Queue/Enqueue/Answer.antt =====
-- The answer of `try_enqueue` for an answer of the abstract queue.
use swap_buffer_queue.Error.{Result, ok, err, TryEnqueueError, insufficient_capacity, closed}
use swap_buffer_queue.Queue.Spec.{Refusal, no_room}

abbrev pub reply :
    {V : Type 0} → V → Result (Unit {0}) Refusal → Result (Unit {0}) (TryEnqueueError V)
reply v (ok _) = ok tt
reply v (err Refusal.is_closed) = err (closed v)
reply v (err no_room) = err (insufficient_capacity v)
