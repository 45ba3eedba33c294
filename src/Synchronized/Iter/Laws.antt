-- ===== src/Synchronized/Iter/Laws.antt =====
-- `SynchronizedQueue::iter` of src/synchronized.rs against the abstract queue.
use swap_buffer_queue.Prelude.{
  ℕ, suc, ◌+◌, ◌-◌, ◌≡◌, refl, subst, false, true, Option, none, some, List, [], ◌∷◌, arith,
}
use swap_buffer_queue.Prelude.Run.{done}
use swap_buffer_queue.Error.{Result, ok, err, closed, DequeueError}
use swap_buffer_queue.Notify.{Notify}
use swap_buffer_queue.Buffer.{Buffer, BufferLaws, Drain, DrainLaws}
use swap_buffer_queue.Queue.{Queue}
use swap_buffer_queue.Queue.Spec.{idle, taken, Spec, dequeue_in, swap, requeue_phase}
use swap_buffer_queue.Queue.Spec as Spec_of
use swap_buffer_queue.Queue.Repr.{Repr}
use swap_buffer_queue.Queue.Dequeue.{BufferSlice}
use swap_buffer_queue.Queue.Dequeue.Release.{requeue_refines}
use swap_buffer_queue.Slice.{BufferIter, into_iter, drop_iter}
use swap_buffer_queue.Slice.Laws.{Ranges, next-some, next-none}
use swap_buffer_queue.Synchronized.Blocking.Dequeue.{waits_answer, Polled}
use swap_buffer_queue.Synchronized.Blocking.Awaited.{Awaits, dequeue_ends}
use swap_buffer_queue.Synchronized.Iter.{Flatten, take_front, with_slice, iter_next}

-- The iterator that goes on from the phase of the abstract queue.
abbrev pub Fronts : {X : Type 0} → Option BufferIter → (index start : ℕ) → List X → Type 0
Fronts none index start xs = ⊥
Fronts (some iter) index start xs = Ranges iter index start xs

-- The first item of a new slice, if there is one, and the abstract queue after it.
abbrev pub first : {X : Type 0} → List X → Option X
first [] = none
first (x ∷ xs) = some x

abbrev pub after_first : {X : Type 0} → Spec X → List X → Spec X
after_first t [] = t
after_first t (x ∷ xs) = record t {
  enqueued = [];
  room = t.spare;
  spare = t.room;
  phase = taken 1 xs;
}

abbrev pub GoesOn : {X : Type 0} → Flatten → (index : ℕ) → List X → Type 0
GoesOn iter index [] = (iter.front ≡ none) × (iter.ended ≡ true)
GoesOn iter index (x ∷ xs) = Fronts iter.front index 1 xs × (iter.ended ≡ false)

-- What holds if there is no item.
abbrev pub IfNone : {X : Type 0} → List X → Type 0 → Type 0
IfNone [] P = P
IfNone (x ∷ xs) P = Unit

abbrev pub at_front : BufferIter → Flatten
at_front iter = record { front = some iter; ended = false }

module _ {X : Type 0} where
  dequeue-shut :
      (t : Spec X)
      → t.enqueued ≡ []
      → t.phase ≡ idle
      → waits_answer (Spec_of.dequeue t).0 ≡ false
      → Spec_of.dequeue t ≡ (err closed, t)
  unfolding dequeue_in swap Spec_of.dequeue
  dequeue-shut t void phase goes = ground (arith, void, phase, goes)

  dequeue-full :
      (t : Spec X) (x : X) (xs : List X)
      → t.enqueued ≡ x ∷ xs
      → t.phase ≡ idle
      → Spec_of.dequeue t ≡ (
        ok (x ∷ xs),
        record t { enqueued = []; room = t.spare; spare = t.room; phase = taken 0 (x ∷ xs) },
      )
  unfolding dequeue_in swap Spec_of.dequeue
  dequeue-full t x xs full phase = ground (arith, full, phase)

module _ {B S X : Type 0} {buf : Buffer B S} (laws : BufferLaws X buf) {drain : Drain B X}
    (drains : DrainLaws laws drain) {N : Type 0} (notifier : Notify N) (register : N → N)
    (queue : ℕ) where
  -- The slice that is out has an item left.
  front-some :
      (q : Queue B N) (index : ℕ) (s : Spec X) (start : ℕ) (x : X) (xs : List X) (iter : BufferIter)
      → Repr laws N q index (record s { phase = taken start (x ∷ xs) })
      → Ranges iter (1 - index) start (x ∷ xs)
      → (q' : Queue B N) × (front : Option BufferIter) × (take_front buf drain notifier register
            queue
            (some iter)
            q
          ≡ done (some x, front) q')
        × Fronts front (1 - index) (suc start) xs
        × Repr laws N q' index (record s { phase = taken (suc start) xs })
  unfolding take_front
  front-some q index s start x xs iter repr ranges =
      let (q', given, after) =
        next-some laws drains q index (record s { phase = taken start (x ∷ xs) }) start x xs iter
          repr repr.phase ranges in
      let ranges' : Ranges (record iter { start = iter.start + 1 }) (1 - index) (suc start) xs =
        record {
          buffer_index = ranges.buffer_index;
          start = omega (arith, ranges.start);
          end = omega (arith, ranges.end);
        } in
      (q', some (record iter { start = iter.start + 1 }), rw given, ranges', after)

  -- It has none, and is dropped.
  front-none :
      (q : Queue B N) (index : ℕ) (s : Spec X) (start : ℕ) (iter : BufferIter)
      → Repr laws N q index (record s { phase = taken start [] })
      → Ranges {X = X} iter (1 - index) start []
      → (q' : Queue B N) × (take_front buf drain notifier register queue (some iter) q
          ≡ done (none, none) q')
        × Repr laws N q' index (record s { phase = idle })
  unfolding take_front drop_iter requeue_phase
  front-none q index s start iter repr ranges =
      let (q', ran, after) =
        requeue_refines laws q index (record s { phase = taken start [] }) repr start []
          repr.phase.1 in
      (
        q',
        rw (next-none laws drains q (1 - index) start iter ranges) (ground (arith, ranges, ran)),
        after,
      )

  pub iter_next-some :
      (waits : List (List (Queue B N → Queue B N))) (q : Queue B N) (index : ℕ) (s : Spec X)
      (start : ℕ) (x : X) (xs : List X) (iter : BufferIter)
      → Repr laws N q index (record s { phase = taken start (x ∷ xs) })
      → Ranges iter (1 - index) start (x ∷ xs)
      → (q' : Queue B N) × (front : Option BufferIter) × (iter_next buf drain notifier register
            queue waits
            (at_front iter)
            q
          ≡ done (some (some x), record { front = front; ended = false }) q')
        × Fronts front (1 - index) (suc start) xs
        × Repr laws N q' index (record s { phase = taken (suc start) xs })
  unfolding iter_next
  iter_next-some [] q index s start x xs iter repr ranges =
      let (q', front, given, fronts, after) = front-some q index s start x xs iter repr ranges in
      (q', front, rw given, fronts, after)
  iter_next-some (meanwhile ∷ waits) q index s start x xs iter repr ranges =
      let (q', front, given, fronts, after) = front-some q index s start x xs iter repr ranges in
      (q', front, rw given, fronts, after)

  -- After the end nothing is dequeued any more.
  pub iter_next-ended :
      (waits : List (List (Queue B N → Queue B N))) (q : Queue B N) (iter : Flatten)
      → iter.front ≡ none
      → iter.ended ≡ true
      → iter_next buf drain notifier register queue waits iter q ≡ done (some none, iter) q
  unfolding iter_next take_front
  iter_next-ended [] q iter void ends = ground (arith, void, ends)
  iter_next-ended (meanwhile ∷ waits) q iter void ends = ground (arith, void, ends)

  after_end :
      (more : List (List (Queue B N → Queue B N))) (p : Queue B N) (index : ℕ) (ys : List X)
      (iter : Flatten)
      → GoesOn iter index ys
      → IfNone ys
          (iter_next buf drain notifier register queue more iter p ≡ done (some none, iter) p)
  after_end more p index [] iter (void, ends) = iter_next-ended more p iter void ends
  after_end more p index (x ∷ xs) iter goes_on = tt

  Awaits-goes :
      (meanwhile : List (Queue B N → Queue B N)) (s t : Spec X)
      → Awaits laws notifier register s meanwhile t
      → waits_answer (Spec_of.dequeue t).0 ≡ false
  Awaits-goes [] s t (same, goes) =
      subst (λ x. waits_answer (Spec_of.dequeue x).0 ≡ false) same goes
  Awaits-goes (others ∷ meanwhile) s t (waits, (s', moves, rest)) = Awaits-goes meanwhile s' t rest

  -- What comes out of a queue that is not empty or is closed, in which nothing is dequeued.
  with_slice_refines :
      (waits : List (List (Queue B N → Queue B N))) (q : Queue B N) (index : ℕ) (t : Spec X)
      (ys : List X) (r : Option (Result (BufferSlice S) DequeueError))
      → t.enqueued ≡ ys
      → t.phase ≡ idle
      → waits_answer (Spec_of.dequeue t).0 ≡ false
      → Polled laws (Spec_of.dequeue t).0 (1 - index) (Spec_of.dequeue t).1.phase r
      → Repr laws N q index (Spec_of.dequeue t).1
      → (q' : Queue B N) × (iter : Flatten) × (with_slice buf drain notifier register queue
            (iter_next buf drain notifier register queue waits)
            r
            q
          ≡ done (some (first ys), iter) q')
        × GoesOn iter (1 - index) ys
        × Repr laws N q' index (after_first t ys)
  unfolding into_iter
  with_slice_refines waits q index t [] r void phase goes polled repr =
      let shut : Spec_of.dequeue t ≡ (err closed, t) = dequeue-shut t void phase goes in
      let ends : r ≡ some (err DequeueError.closed) =
        subst (λ d. Polled laws d.0 (1 - index) d.1.phase r) shut polled in
      (
        q,
        record { front = none; ended = true },
        rw ends,
        (refl, refl),
        subst (λ d. Repr laws N q index d.1) shut repr,
      )
  with_slice_refines waits q index t (x ∷ xs) r full phase goes polled repr =
      let out = dequeue-full t x xs full phase in
      let (sl, is_ok, shown, (at_index, from, until, shows)) =
        subst (λ d. Polled laws d.0 (1 - index) d.1.phase r) out polled in
      let ranges : Ranges (into_iter queue sl) (1 - index) 0 (x ∷ xs) = record {
        buffer_index = at_index;
        start = from;
        end = until;
      } in
      let (q', front, given, fronts, after) =
        iter_next-some waits q index (record t { enqueued = []; room = t.spare; spare = t.room }) 0
          x xs (into_iter queue sl) (subst (λ d. Repr laws N q index d.1) out repr) ranges in
      (q', record { front = front; ended = false }, rw is_ok given, (fronts, refl), after)

  -- With a buffer and a draining that keep their contracts and one caller: when the slice that is out
  -- has no item left, and after the waits of a `dequeue` the abstract queue is not empty or is closed,
  -- with nothing dequeued, then `next` of the iterator drops the slice and dequeues. It gives the first
  -- of the items that are enqueued, the others being taken, or it ends if there are none: then each
  -- further `next` gives none and leaves the queue as it is.
  pub iter_next_refines :
      (meanwhile : List (Queue B N → Queue B N)) (waits : List (List (Queue B N → Queue B N)))
      (more : List (List (Queue B N → Queue B N))) (q p : Queue B N) (index : ℕ) (s t : Spec X)
      (start : ℕ) (iter : BufferIter)
      → Repr laws N q index (record s { phase = taken start [] })
      → Ranges {X = X} iter (1 - index) start []
      → Awaits laws notifier register (record s { phase = idle }) meanwhile t
      → t.phase ≡ idle
      → (q' : Queue B N) × (index' : ℕ) × (next' : Flatten) × (iter_next buf drain notifier register
            queue
            (meanwhile ∷ waits)
            (at_front iter)
            q
          ≡ done (some (first t.enqueued), next') q')
        × GoesOn next' (1 - index') t.enqueued
        × IfNone t.enqueued
            (iter_next buf drain notifier register queue more next' p ≡ done (some none, next') p)
        × Repr laws N q' index' (after_first t t.enqueued)
  unfolding iter_next
  iter_next_refines meanwhile waits more q p index s t start iter repr ranges awaits free =
      let (q₁, dropped, idle_repr) = front-none q index s start iter repr ranges in
      let (r, q₂, index', ran, polled, after) =
        dequeue_ends laws notifier register meanwhile q₁ index (record s { phase = idle }) t
          idle_repr awaits in
      let (q', next', given, goes_on, after') =
        with_slice_refines waits q₂ index' t t.enqueued r refl free
          (Awaits-goes meanwhile (record s { phase = idle }) t awaits) polled after in
      (
        q',
        index',
        next',
        rw (dropped, ran) given,
        goes_on,
        after_end more p (1 - index') t.enqueued next' goes_on,
        after',
      )
