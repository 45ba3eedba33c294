-- ===== src/History/Fifo.antt =====
-- The order of what comes out of a queue, over a sequence of calls.
use swap_buffer_queue.Prelude.{
  ℕ, zero, suc, ◌+◌, ◌≡◌, refl, ◌∙◌, ap, sym, List, [], ◌∷◌, ◌++◌, length, take, drop, arith, ltb,
  ◌==◌, true, Bool-cases, inl, inr,
}
use mathlib.Core.List.{append-nil, append_assoc}
use swap_buffer_queue.Prelude.Run.{done}
use swap_buffer_queue.Error.{ok}
use swap_buffer_queue.Notify.{Notify}
use swap_buffer_queue.Buffer.{Buffer, BufferLaws, InsertIntoBuffer, InsertLaws, Drain, DrainLaws}
use swap_buffer_queue.Queue.Spec.{
  Phase, idle, requeued, taken, Spec, enqueue, swap, dequeue, dequeue_in, requeue_phase,
}
use swap_buffer_queue.Queue.Enqueue.Answer.{reply}
use swap_buffer_queue.History.{
  Op, enqueue_op, dequeue_op, release_op, requeue_op, drain_op, close_op, reopen_op, Reply,
  enqueued, released, given, Client, run, spec_act, spec_run,
}
use swap_buffer_queue.History.Refine.{AllFit, ClientRepr, run_refines}

module _ {X : Type 0} where
  -- What the dequeuing side holds.
  abbrev pub phase_items : Phase X → List X
  phase_items idle = []
  phase_items (requeued start xs) = xs
  phase_items (taken start xs) = xs

  -- What is in the queue, the oldest first.
  abbrev pub all_items : Spec X → List X
  all_items s = phase_items s.phase ++ s.enqueued

module _ {V X : Type 0} (items : V → List X) where
  -- What the caller has consumed, by a reply: what an iterator gave, or what was in a slice that was
  -- dropped.
  abbrev pub gets : Reply V X → List X
  gets (given xs) = xs
  gets (released xs) = xs
  gets _ = []

  -- The items of a value that the queue has accepted.
  abbrev pub puts : Reply V X → List X
  puts (enqueued v (ok _)) = items v
  puts _ = []

  abbrev pub consumed : List (Reply V X) → List X
  consumed [] = []
  consumed (r ∷ rs) = gets r ++ consumed rs

  abbrev pub accepted : List (Reply V X) → List X
  accepted [] = []
  accepted (r ∷ rs) = puts r ++ accepted rs

take-append-drop : {X : Type 0} (n : ℕ) (xs : List X) → take n xs ++ drop n xs ≡ xs
take-append-drop zero xs = refl
take-append-drop (suc n) [] = refl
take-append-drop (suc n) (x ∷ xs) = ap (λ ys. x ∷ ys) (take-append-drop n xs)

phase_items-requeue :
    {X : Type 0} (start : ℕ) (xs : List X) → phase_items (requeue_phase start xs) ≡ xs
unfolding requeue_phase
phase_items-requeue start [] = refl
phase_items-requeue start (x ∷ xs) =
    let left : ltb 0 (suc (length xs)) ≡ true = ground arith in rw left

-- An empty value adds nothing.
append-empty : {X : Type 0} (xs ys : List X) → length ys ≡ 0 → xs ++ ys ≡ xs
append-empty xs [] none_left = append-nil xs
append-empty xs (y ∷ ys) none_left = absurd (omega (arith, none_left))

module _ {X : Type 0} where
  -- Taking out what is enqueued keeps what is in the queue.
  all_items-dequeue :
      (phase : Phase X) (s : Spec X)
      → all_items (dequeue_in phase (record s { phase = phase })).1
        ≡ phase_items phase ++ s.enqueued
  unfolding dequeue_in swap
  all_items-dequeue idle s = elim (Bool-cases (length s.enqueued == 0)) [
    | inl e ↦ rw e
    | inr ne ↦ rw ne (append-nil s.enqueued)
  ]
  all_items-dequeue (requeued start xs) s = refl
  all_items-dequeue (taken start xs) s = refl

module _ {V X : Type 0} (items : V → List X) where
  -- One call keeps the balance of what comes in and what goes out.
  abbrev Balanced : Reply V X × Spec X → List X → Type 0
  Balanced answer before = gets items answer.0 ++ all_items answer.1 ≡ before ++ puts items answer.0

  enqueue-Balanced :
      (v : V) (s : Spec X)
      → Balanced
          (enqueued v (reply v (enqueue (items v) s).0), (enqueue (items v) s).1)
          (all_items s)
  unfolding enqueue
  enqueue-Balanced v s = elim (Bool-cases (length (items v) == 0)) [
    | inl e ↦ rw e (sym (append-empty (all_items s) (items v) (ground (arith, e))))
    | inr e ↦ elim (Bool-cases s.is_shut) [
      | inl shut ↦ rw (e, shut) (sym (append-nil (all_items s)))
      | inr open_ ↦ elim (Bool-cases (ltb s.room (length s.enqueued + length (items v)))) [
        | inl full ↦ rw (e, open_, full) (sym (append-nil (all_items s)))
        | inr fit ↦
            rw (e, open_, fit) (sym (append_assoc (phase_items s.phase) s.enqueued (items v)))
      ]
    ]
  ]

  act-Balanced :
      (op : Op V) (phase : Phase X) (s : Spec X)
      → Balanced
          (spec_act items op phase (record s { phase = phase }))
          (phase_items phase ++ s.enqueued)
  unfolding spec_act dequeue
  act-Balanced (enqueue_op n v) phase s = enqueue-Balanced v (record s { phase = phase })
  act-Balanced dequeue_op phase s = rw (all_items-dequeue phase s, append-nil)
  act-Balanced release_op (taken start xs) s = rw append-nil
  act-Balanced requeue_op (taken start xs) s = rw (phase_items-requeue, append-nil)
  act-Balanced (drain_op times) (taken start xs) s = rw (
    phase_items-requeue,
    append-nil,
    sym (append_assoc (take times xs) (drop times xs) s.enqueued),
    take-append-drop,
  )
  act-Balanced close_op phase s = sym (append-nil _)
  act-Balanced reopen_op phase s = sym (append-nil _)
  act-Balanced release_op idle s = sym (append-nil s.enqueued)
  act-Balanced requeue_op idle s = sym (append-nil s.enqueued)
  act-Balanced (drain_op times) idle s = sym (append-nil s.enqueued)
  act-Balanced release_op (requeued start xs) s = sym (append-nil (xs ++ s.enqueued))
  act-Balanced requeue_op (requeued start xs) s = sym (append-nil (xs ++ s.enqueued))
  act-Balanced (drain_op times) (requeued start xs) s = sym (append-nil (xs ++ s.enqueued))

  run-Balanced :
      (ops : List (Op V)) (s : Spec X)
      → consumed items (spec_run items ops s).0 ++ all_items (spec_run items ops s).1
        ≡ all_items s ++ accepted items (spec_run items ops s).0
  unfolding spec_run
  run-Balanced [] s = sym (append-nil (all_items s))
  run-Balanced (op ∷ ops) s =
      let (r, s₁) = spec_act items op s.phase s in
      let (rs, s₂) = spec_run items ops s₁ in
      append_assoc (gets items r) (consumed items rs) (all_items s₂)
      ∙ ap (λ xs. gets items r ++ xs) (run-Balanced ops s₁)
      ∙ sym (append_assoc (gets items r) (all_items s₁) (accepted items rs))
      ∙ ap (λ xs. xs ++ accepted items rs) (act-Balanced op s.phase s)
      ∙ append_assoc (all_items s) (puts items r) (accepted items rs)

module _ {B S N V X : Type 0} {buf : Buffer B S} (laws : BufferLaws X buf)
    {ins : InsertIntoBuffer B V} (into : InsertLaws laws ins) {drain : Drain B X}
    (drains : DrainLaws laws drain) (notifier : Notify N) where
  open laws use {contents}
  open into use {items}

  -- With a buffer, values and a draining that keep their contracts, every sequence of calls, with
  -- values of sizes below `2 ^ 63`, from a caller and a queue that stand for an abstract state,
  -- ends with no panic and no fault. What its replies have given to the caller, by dropped slices
  -- and by iterators, and then what is still in the queue, is what was in the queue before and then
  -- the items of the values that were accepted, in this order.
  pub run_fifo :
      (ops : List (Op V)) (c : Client B S N) (s : Spec X)
      → AllFit items ops
      → ClientRepr laws into drains notifier c s
      → (replies : List (Reply V X)) × (c' : Client B S N) × (s' : Spec X) × (run buf contents ins
            drain notifier ops c
          ≡ done replies c')
        × ClientRepr laws into drains notifier c' s'
        × (consumed items replies ++ all_items s' ≡ all_items s ++ accepted items replies)
  run_fifo ops c s fit repr =
      let (c', ran, after) = run_refines laws into drains notifier ops c s fit repr in
      ((spec_run items ops s).0, c', (spec_run items ops s).1, ran, after, run-Balanced items ops s)
