-- ===== src/History/Refine.antt =====
-- Sequences of calls on a queue against the same calls on the abstract queue.
use swap_buffer_queue.Prelude.{
  ℕ, suc, ltb, true, sym, ◌∙◌, ◌+◌, ◌-◌, ◌^◌, ◌<◌, ◌≡◌, refl, ap, Option, none, some, List, [], ◌∷◌,
  length, take, drop, arith,
}
use swap_buffer_queue.Prelude.Run.{done, and_then}
use swap_buffer_queue.Error.{Result, ok, err, TryDequeueError}
use swap_buffer_queue.Notify.{Notify}
use swap_buffer_queue.Buffer.{Buffer, BufferLaws, InsertIntoBuffer, InsertLaws, Drain, DrainLaws}
use swap_buffer_queue.Queue.{Queue}
use swap_buffer_queue.Queue.Spec.{
  Phase, idle, requeued, taken, Spec, enqueue, swap, dequeue, dequeue_in, requeue_phase,
}
use swap_buffer_queue.Queue.Repr.{Repr}
use swap_buffer_queue.Queue.Control.{close_refines, reopen_refines}
use swap_buffer_queue.Queue.Enqueue.Refine.{try_enqueue_refines}
use swap_buffer_queue.Queue.Dequeue.{BufferSlice, try_dequeue}
use swap_buffer_queue.Queue.Dequeue.Answer.{Shows, Refined}
use swap_buffer_queue.Queue.Dequeue.Refine.{try_dequeue_refines}
use swap_buffer_queue.Queue.Dequeue.Release.{release_refines, requeue_refines}
use swap_buffer_queue.Slice.{requeue, drop_slice}
use swap_buffer_queue.Slice.Laws.{drop_iter_refines}
use swap_buffer_queue.History.{
  Op, enqueue_op, dequeue_op, release_op, requeue_op, drain_op, close_op, reopen_op, Client, Reply,
  dequeued, released, given, nothing, client, received, act, run, spec_act, spec_run,
}

-- The sizes of the values that are enqueued fit a word with its shift.
abbrev pub Fits : {V X : Type 0} → (V → List X) → Op V → Type 0
Fits items (enqueue_op spurious v) = length (items v) < 2 ^ 63
Fits items _ = Unit

abbrev pub AllFit : {V X : Type 0} → (V → List X) → List (Op V) → Type 0
AllFit items [] = Unit
AllFit items (op ∷ ops) = Fits items op × AllFit items ops

module _ {B S N V X : Type 0} {buf : Buffer B S} (laws : BufferLaws X buf)
    {ins : InsertIntoBuffer B V} (into : InsertLaws laws ins) {drain : Drain B X}
    (drains : DrainLaws laws drain) (notifier : Notify N) where
  open laws use {contents}
  open into use {items}

  -- The slice that is out shows what the phase holds; there is one just in the phase `taken`.
  abbrev pub Out : Option (BufferSlice S) → (index : ℕ) → Phase X → Type 0
  Out none index (taken start xs) = ⊥
  Out none index phase = Unit
  Out (some slice) index phase = Shows laws slice index phase

  pub record ClientRepr (c : Client B S N) (s : Spec X) : Type 0 where
    pub index : ℕ
    pub queue : Repr laws N c.queue index s
    pub held : Out c.held (1 - index) s.phase

  -- A run that ends with this reply, and a caller and a queue that stand for this state.
  abbrev ActsAs : Op V → Option (BufferSlice S) → Queue B N → Reply V X × Spec X → Type 0
  ActsAs op held q answer =
      (c : Client B S N) × (act buf contents ins drain notifier op held q ≡ done answer.0 c)
      × ClientRepr c answer.1

  -- After a requeuing no slice is out.
  requeued-Out : (start : ℕ) (xs : List X) (index : ℕ) → Out none index (requeue_phase start xs)
  unfolding requeue_phase
  requeued-Out start [] index = tt
  requeued-Out start (x ∷ xs) index =
      let left : ltb 0 (suc (length xs)) ≡ true = ground arith in rw left tt

  phase-enqueue : (xs : List X) (s : Spec X) → (enqueue xs s).1.phase ≡ s.phase
  unfolding enqueue
  phase-enqueue xs s = ground arith

  -- An error changes nothing in the abstract queue.
  phase-dequeue :
      (phase : Phase X) (s : Spec X) (e : TryDequeueError)
      → (dequeue_in phase s).0 ≡ err e
      → (dequeue_in phase s).1 ≡ s
  unfolding dequeue_in swap
  phase-dequeue idle s e failed = ground arith
  phase-dequeue (requeued start xs) s e failed = cc
  phase-dequeue (taken start xs) s e failed = refl

  -- With no slice out, the calls that need one do nothing, in the code and in the abstract queue.
  without_slice :
      (op : Op V) (phase : Phase X) (q : Queue B N) (index : ℕ) (s : Spec X)
      → Repr laws N q index (record s { phase = phase })
      → Out none (1 - index) phase
      → act buf contents ins drain notifier op none q ≡ done nothing (client q none)
      → spec_act items op phase (record s { phase = phase }) ≡ (nothing, record s { phase = phase })
      → ActsAs op none q (spec_act items op phase (record s { phase = phase }))
  without_slice op phase q index s repr out ran answer =
      rw answer (client q none, ran, record { index = index; queue = repr; held = out })

  released_refines :
      (slice : BufferSlice S) (start : ℕ) (xs : List X) (q : Queue B N) (index : ℕ) (s : Spec X)
      → Repr laws N q index (record s { phase = taken start xs })
      → Shows laws slice (1 - index) (taken start xs)
      → ActsAs release_op (some slice) q (released xs, record s { phase = idle })
  unfolding act drop_slice
  released_refines slice start xs q index s repr (at_index, from, until, shown) =
      let (q', ran, clean, after) =
        release_refines laws q index (record s { phase = taken start xs }) repr start xs
          repr.phase.1 in
      (
        client q' none,
        rw (at_index, from, until, ran, shown),
        record { index = index; queue = after; held = tt },
      )

  requeued_refines :
      (slice : BufferSlice S) (start : ℕ) (xs : List X) (q : Queue B N) (index : ℕ) (s : Spec X)
      → Repr laws N q index (record s { phase = taken start xs })
      → Shows laws slice (1 - index) (taken start xs)
      → ActsAs requeue_op (some slice) q (nothing, record s { phase = requeue_phase start xs })
  unfolding act requeue
  requeued_refines slice start xs q index s repr (at_index, from, until, shown) =
      let (q', ran, after) =
        requeue_refines laws q index (record s { phase = taken start xs }) repr start xs
          repr.phase.1 in
      (
        client q' none,
        rw (at_index, from, until, ran),
        record { index = index; queue = after; held = requeued-Out start xs (1 - index) },
      )

  drained_refines :
      (times : ℕ) (slice : BufferSlice S) (start : ℕ) (xs : List X) (q : Queue B N) (index : ℕ)
      (s : Spec X)
      → Repr laws N q index (record s { phase = taken start xs })
      → Shows laws slice (1 - index) (taken start xs)
      → ActsAs (drain_op times) (some slice) q (
        given (take times xs),
        record s { phase = requeue_phase (start + length (take times xs)) (drop times xs) },
      )
  unfolding act
  drained_refines times slice start xs q index s repr shows =
      let (q', ran, after) =
        drop_iter_refines laws drains times q index s start xs 0 slice repr shows in
      (
        client q' none,
        rw ran,
        record {
          index = index;
          queue = after;
          held = requeued-Out (start + length (take times xs)) (drop times xs) (1 - index);
        },
      )

  -- The slice that comes out is the one that is then out; an error leaves things as they are.
  received_refines :
      (held : Option (BufferSlice S)) (q : Queue B N) (index : ℕ) (s : Spec X)
      (answer : Result (List X) TryDequeueError) (after : Spec X)
      → dequeue s ≡ (answer, after)
      → Out held (1 - index) s.phase
      → Refined laws (try_dequeue buf notifier) q index (answer, after)
      → ActsAs dequeue_op held q (dequeued answer, after)
  unfolding act dequeue
  received_refines held q index s (err e) after same out (r, q', index', ran, is_err, kept, repr) =
      let unchanged : after ≡ s =
        sym (ap (λ p. p.1) same) ∙ phase-dequeue s.phase s e (ap (λ p. p.0) same) in
      (
        client q' held,
        rw (ran, is_err),
        record { index = index'; queue = repr; held = rw (unchanged, kept) out },
      )
  received_refines held q index s (ok xs) after same out
        (r, q', index', ran, answered, kept, repr) =
      (
        client q' (some answered.0),
        rw (ran, answered.1, received, answered.2),
        record { index = index'; queue = repr; held = answered.3 },
      )

  dequeued_refines :
      (held : Option (BufferSlice S)) (phase : Phase X) (q : Queue B N) (index : ℕ) (s : Spec X)
      → Repr laws N q index (record s { phase = phase })
      → Out held (1 - index) phase
      → ActsAs dequeue_op held q (spec_act items dequeue_op phase (record s { phase = phase }))
  unfolding spec_act
  dequeued_refines held phase q index s repr out =
      let before : Spec X = record s { phase = phase } in
      received_refines held q index before (dequeue before).0 (dequeue before).1 refl out
        (try_dequeue_refines laws notifier q index before repr)

  -- Each call.
  act_refines :
      (op : Op V) (held : Option (BufferSlice S)) (phase : Phase X) (q : Queue B N) (index : ℕ)
      (s : Spec X)
      → Fits items op
      → Repr laws N q index (record s { phase = phase })
      → Out held (1 - index) phase
      → ActsAs op held q (spec_act items op phase (record s { phase = phase }))
  unfolding act spec_act
  act_refines (enqueue_op n v) held phase q index s fits repr out =
      let (q', ran, after) =
        try_enqueue_refines laws into notifier n v q index (record s { phase = phase }) repr fits in
      let same : (enqueue (items v) (record s { phase = phase })).1.phase ≡ phase =
        phase-enqueue (items v) (record s { phase = phase }) in
      (client q' held, rw ran, record { index = index; queue = after; held = rw same out })
  act_refines dequeue_op held phase q index s fits repr out =
      dequeued_refines held phase q index s repr out
  act_refines close_op held phase q index s fits repr out = (
    client _ held,
    refl,
    record { index = index; queue = close_refines laws q index _ repr notifier; held = out },
  )
  act_refines reopen_op held phase q index s fits repr out = (
    client _ held,
    refl,
    record { index = index; queue = reopen_refines laws q index _ repr; held = out },
  )
  act_refines release_op (some slice) (taken start xs) q index s fits repr out =
      released_refines slice start xs q index s repr out
  act_refines requeue_op (some slice) (taken start xs) q index s fits repr out =
      requeued_refines slice start xs q index s repr out
  act_refines (drain_op times) (some slice) (taken start xs) q index s fits repr out =
      drained_refines times slice start xs q index s repr out
  act_refines op (some slice) idle q index s fits repr out = absurd out
  act_refines op (some slice) (requeued start xs) q index s fits repr out = absurd out
  act_refines op none (taken start xs) q index s fits repr out = absurd out
  act_refines release_op none phase q index s fits repr out =
      without_slice release_op phase q index s repr out refl refl
  act_refines requeue_op none phase q index s fits repr out =
      without_slice requeue_op phase q index s repr out refl refl
  act_refines (drain_op times) none phase q index s fits repr out =
      without_slice (drain_op times) phase q index s repr out refl refl

  -- With a buffer, values and a draining that keep their contracts, every sequence of calls, with
  -- values of sizes below `2 ^ 63`, from a caller and a queue that stand for an abstract state,
  -- ends with no panic and no fault. Every reply is that of the abstract queue, and the caller and
  -- the queue then stand for the abstract state after the same calls.
  pub run_refines :
      (ops : List (Op V)) (c : Client B S N) (s : Spec X)
      → AllFit items ops
      → ClientRepr c s
      → (c' : Client B S N) × (run buf contents ins drain notifier ops c
          ≡ done (spec_run items ops s).0 c')
        × ClientRepr c' (spec_run items ops s).1
  unfolding run spec_run
  run_refines [] c s fit repr = (c, refl, repr)
  run_refines (op ∷ ops) c s (fits, fit) repr =
      let (c₁, acted, repr₁) =
        act_refines op c.held s.phase c.queue repr.index s fits repr.queue repr.held in
      let (c₂, ran, repr₂) = run_refines ops c₁ (spec_act items op s.phase s).1 fit repr₁ in
      (c₂, rw (acted, and_then, ran), repr₂)
