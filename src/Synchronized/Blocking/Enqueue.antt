-- ===== src/Synchronized/Blocking/Enqueue.antt =====
-- `try_enqueue` of src/synchronized.rs against the abstract queue.
use swap_buffer_queue.Prelude.{
  ℕ, zero, suc, ◌-◌, ◌^◌, ◌<◌, ◌≡◌, ◌≢◌, refl, inl, inr, ◌∙◌, Option-cases, subst, Option, none,
  some, leb, if◌then◌else◌, arith, length,
}
use swap_buffer_queue.Prelude.Run.{done}
use swap_buffer_queue.Error.{Result, ok, err, TryEnqueueError, insufficient_capacity}
use swap_buffer_queue.Loom.{spin_limit}
use swap_buffer_queue.Notify.{Notify}
use swap_buffer_queue.Buffer.{Buffer, BufferLaws, InsertIntoBuffer, InsertLaws}
use swap_buffer_queue.Queue.{Queue}
use swap_buffer_queue.Queue.Spec.{Spec, Refusal, no_room, enqueue}
use swap_buffer_queue.Queue.Repr.{Repr, Repr-side, InPhase-same}
use swap_buffer_queue.Queue.Enqueue.Answer.{reply}
use swap_buffer_queue.Queue.Enqueue.Refine.{try_enqueue_refines}
use swap_buffer_queue.Synchronized.Blocking.{
  waits_for_room, enqueue_round, spin_enqueue, try_enqueue,
}

-- The answer of the operation: a value that would fit in an empty buffer is handed back to wait.
abbrev pub waiting_reply :
    {V : Type 0}
    → V
    → (size room : ℕ) → Result (Unit {0}) Refusal
    → Result (Result (Unit {0}) (TryEnqueueError V)) V
waiting_reply v size room (err no_room) =
    if leb size room then err v else ok (err (insufficient_capacity v))
waiting_reply v size room answer = ok (reply v answer)

-- What is done with the notifier leaves what the queue stands for.
pub notified-Repr :
    {B S N X : Type 0} {buf : Buffer B S} (laws : BufferLaws X buf) (q : Queue B N) (index : ℕ)
    (s : Spec X) (n : N)
    → Repr laws N q index s
    → Repr laws N (record q { notify = n }) index s
notified-Repr {N = N} laws q index s n repr =
    Repr-side laws N s.phase repr refl refl refl refl repr.spare_slots (
      InPhase-same laws N q (record q { notify = n }) (1 - index) s.phase refl refl refl repr.phase)

module _ {B S N V X : Type 0} {buf : Buffer B S} (laws : BufferLaws X buf)
    {ins : InsertIntoBuffer B V} (into : InsertLaws laws ins) (notifier : Notify N)
    (register : N → N) (spurious : ℕ) (v : V) (small : length (into.items v) < 2 ^ 63) where
  open into use {items, size-items}

  -- One round, which finds the capacity that the abstract queue has before it and after it.
  enqueue-room : (s : Spec X) → (enqueue (items v) s).1.room ≡ s.room
  unfolding enqueue
  enqueue-room s = ground arith

  pub round_refines :
      (q : Queue B N) (index : ℕ) (s : Spec X)
      → Repr laws N q index s
      → (q' : Queue B N) × (enqueue_round buf ins notifier register spurious v q
          ≡ done
              (
                reply v (enqueue (items v) s).0,
                waits_for_room ins.size s.room (reply v (enqueue (items v) s).0),
              )
              q')
        × Repr laws N q' index (enqueue (items v) s).1
  round_refines q index s repr =
      let (q', run, repr') =
        try_enqueue_refines laws into notifier spurious v q index s repr small in
      let room : q'.capacity ≡ s.room = repr'.capacity ∙ enqueue-room s in
      (q', rw (run, room), repr')

  -- Whether the value is to wait for room.
  abbrev pub must_wait : Spec X → Option V
  must_wait s = waits_for_room ins.size s.room (reply v (enqueue (items v) s).0)

  -- A value that waits leaves the abstract queue as it was.
  pub waiting_same :
      (s : Spec X) → must_wait s ≢ none → (must_wait s ≡ some v) × ((enqueue (items v) s).1 ≡ s)
  unfolding enqueue
  waiting_same s waits = ground arith

  pub waits_reply :
      (s : Spec X)
      → must_wait s ≡ some v
      → waiting_reply v (length (items v)) s.room (enqueue (items v) s).0 ≡ err v
  unfolding enqueue
  waits_reply s waits = ground (arith, size-items v)

  pub goes_reply :
      (s : Spec X)
      → must_wait s ≡ none
      → waiting_reply v (length (items v)) s.room (enqueue (items v) s).0
        ≡ ok (reply v (enqueue (items v) s).0)
  unfolding enqueue
  goes_reply s goes = ground (arith, size-items v)

  -- As long as the value waits, each round leaves the queue as it was.
  spin_waits :
      (rounds : ℕ) (q : Queue B N) (index : ℕ) (s : Spec X)
      → Repr laws N q index s
      → must_wait s ≡ some v
      → (enqueue (items v) s).1 ≡ s
      → (q' : Queue B N) × (spin_enqueue buf ins notifier register spurious rounds v q
          ≡ done (err v) q')
        × Repr laws N q' index s
  unfolding spin_enqueue
  spin_waits zero q index s repr waits same = (q, refl, repr)
  spin_waits (suc rounds) q index s repr waits same =
      let (q', run, repr') = round_refines q index s repr in
      let (last, runs, repr_last) =
        spin_waits rounds q' index s (subst (Repr laws N q' index) same repr') waits same in
      (last, rw (run, waits) runs, repr_last)

  -- With a buffer and values that keep their contracts, on a queue that stands for an abstract one,
  -- with a value of a size below `2 ^ 63` and one caller, the operation runs to its end. A value that
  -- the abstract queue has no room for, but that fits in an empty buffer, is handed back to wait;
  -- otherwise the answer is that of the abstract queue. What is left stands for the abstract queue
  -- after the operation.
  pub try_enqueue_waits :
      (q : Queue B N) (index : ℕ) (s : Spec X)
      → Repr laws N q index s
      → (q' : Queue B N) × (try_enqueue buf ins notifier register spurious v q
          ≡ done (waiting_reply v (length (items v)) s.room (enqueue (items v) s).0) q')
        × Repr laws N q' index (enqueue (items v) s).1
  unfolding try_enqueue spin_enqueue
  try_enqueue_waits q index s repr = elim (Option-cases (must_wait s)) [
    | inl goes ↦
        let (q', run, repr') = round_refines q index s repr in
        (q', rw (run, goes, goes_reply s goes), repr')
    | inr (w, e) ↦
        let (waits, same) = waiting_same s (λ none_there. cc (none_there, e)) in
        let (q', spun, repr') = spin_waits spin_limit q index s repr waits same in
        let (last, run, repr_last) =
          round_refines (record q' { notify = register q'.notify }) index s
            (notified-Repr laws q' index s (register q'.notify) repr') in
        (last, rw (spun, run, waits, waits_reply s waits), repr_last)
  ]
