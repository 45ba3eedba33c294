-- ===== src/Synchronized/Blocking/Parked.antt =====
-- `enqueue_sync` of src/synchronized.rs, with what the abstract queue comes to while the caller is
-- parked.
use swap_buffer_queue.Prelude.{
  ℕ, ◌^◌, ◌<◌, ◌≡◌, ap, subst, ◌∙◌, Bool, false, Option, none, some, List, [], ◌∷◌, length,
}
use swap_buffer_queue.Prelude.Run.{done}
use swap_buffer_queue.Error.{ok, err}
use swap_buffer_queue.Notify.{Notify}
use swap_buffer_queue.Buffer.{Buffer, BufferLaws, InsertIntoBuffer, InsertLaws}
use swap_buffer_queue.Queue.{Queue}
use swap_buffer_queue.Queue.Spec.{Spec, enqueue}
use swap_buffer_queue.Queue.Repr.{Repr}
use swap_buffer_queue.Queue.Enqueue.Answer.{reply}
use swap_buffer_queue.Synchronized.Blocking.{try_enqueue, enqueue_sync}
use swap_buffer_queue.Synchronized.Blocking.Enqueue.{
  must_wait, waiting_same, waits_reply, goes_reply, try_enqueue_waits,
}

module _ {B S N V X : Type 0} {buf : Buffer B S} (laws : BufferLaws X buf)
    {ins : InsertIntoBuffer B V} (into : InsertLaws laws ins) (notifier : Notify N)
    (register : N → N) (spurious : ℕ) (v : V) (small : length (into.items v) < 2 ^ 63) where
  open into use {items}

  abbrev waits_in : Spec X → Option V
  waits_in s = must_wait laws into notifier register spurious v small s

  -- The waits of a caller with this value: at each the value has to wait, no deadline passes, and what
  -- the others do takes a queue that stands for one abstract state to one that stands for the next. In
  -- the last of them, `t`, the value does not have to wait.
  abbrev pub Wakes : Spec X → List (Bool × (Queue B N → Queue B N)) → Spec X → Type 0
  Wakes s [] t = (s ≡ t) × (waits_in s ≡ none)
  Wakes s ((late, meanwhile) ∷ waits) t =
      (late ≡ false)
      × (waits_in s ≡ some v)
      × ((s' : Spec X) × ((q : Queue B N) (index : ℕ)
            → Repr laws N q index s
            → (index' : ℕ) × Repr laws N (meanwhile q) index' s')
          × Wakes s' waits t)

  -- With a buffer and values that keep their contracts, a value of a size below `2 ^ 63`, and waits
  -- without a deadline that passes, after the last of which the value does not have to wait, the loop
  -- of `enqueue_sync` ends, with the answer of the abstract queue in its last state, and leaves a queue
  -- that stands for that state after the operation.
  pub enqueue_sync_ends :
      (waits : List (Bool × (Queue B N → Queue B N))) (q : Queue B N) (index : ℕ) (s t : Spec X)
      → Repr laws N q index s
      → Wakes s waits t
      → (q' : Queue B N) × (index' : ℕ) × (enqueue_sync buf ins notifier register spurious waits v q
          ≡ done (some (reply v (enqueue (items v) t).0)) q')
        × Repr laws N q' index' (enqueue (items v) t).1
  unfolding enqueue_sync
  enqueue_sync_ends [] q index s t repr (same, goes) =
      let (q', run, repr') =
        try_enqueue_waits laws into notifier register spurious v small q index s repr in
      let reply' : try_enqueue buf ins notifier register spurious v q
          ≡ done (ok (reply v (enqueue (items v) s).0)) q' =
        run
        ∙ ap (λ r. done r q') (goes_reply laws into notifier register spurious v small s goes) in
      (
        q',
        index,
        subst
            (λ x.
              enqueue_sync buf ins notifier register spurious [] v q
              ≡ done (some (reply v (enqueue (items v) x).0)) q')
            same (rw reply'),
        subst (λ x. Repr laws N q' index (enqueue (items v) x).1) same repr',
      )
  enqueue_sync_ends ((late, meanwhile) ∷ waits) q index s t repr
        (in_time, must, (s', moves, rest)) =
      let (q', run, repr') =
        try_enqueue_waits laws into notifier register spurious v small q index s repr in
      let reply' : try_enqueue buf ins notifier register spurious v q ≡ done (err v) q' =
        run
        ∙ ap (λ r. done r q') (waits_reply laws into notifier register spurious v small s must) in
      let (kept, same) =
        waiting_same laws into notifier register spurious v small s (λ void. cc (void, must)) in
      let (index', repr_next) = moves q' index (subst (Repr laws N q' index) same repr') in
      let (last, index_last, runs, repr_last) =
        enqueue_sync_ends waits (meanwhile q') index' s' t repr_next rest in
      (last, index_last, rw (reply', in_time) runs, repr_last)
