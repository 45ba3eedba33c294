-- ===== src/Tests/Parking.antt =====
-- The theorems on threads that wait: one for items, while another enqueues, and one for room, while
-- another dequeues.
use swap_buffer_queue.Prelude.{
  ℕ, zero, suc, ◌≡◌, refl, Bool, true, false, none, [], ◌∷◌, arith, ◌==◌,
}
use swap_buffer_queue.Buffer.Insert.Laws.{array_laws}
use swap_buffer_queue.Buffer.Vec.Laws.{buffer_laws, cell_laws}
use swap_buffer_queue.Queue.Spec.{enqueue, dequeue, dequeue_in, swap}
use swap_buffer_queue.Queue.Control.{fresh}
use swap_buffer_queue.Notify.{no_notify}
use swap_buffer_queue.Queue.{Queue}
use swap_buffer_queue.Synchronized.Waker.{Call, wake_task, unpark}
use swap_buffer_queue.Synchronized.AtomicWaker as Atomic
use swap_buffer_queue.Synchronized.WakerList as Listed
use swap_buffer_queue.Synchronized.Parking.Looks.{
  finds_items, finds_items-Repr, finds_room, finds_room-Repr,
}
use swap_buffer_queue.Synchronized.Parking.Dequeuer as Items
use swap_buffer_queue.Synchronized.Parking.Dequeuer.Inv.{coming}
use swap_buffer_queue.Synchronized.Parking.Dequeuer.Safety.{dequeuer_woken}
use swap_buffer_queue.Synchronized.Parking.Dequeuer.Progress.{CalledFrom, dequeuer_called}
use swap_buffer_queue.Synchronized.Parking.Enqueuers as Room
use swap_buffer_queue.Synchronized.Parking.Enqueuers.Inv as Room_inv
use swap_buffer_queue.Synchronized.Parking.Enqueuers.Safety.{enqueuer_woken}
use swap_buffer_queue.Tests.Data.{
  Cells, vec, values, empty_queue, filled_queue, filled, empty_queue-Repr, filled-Repr,
}

abbrev handle : ℕ → ℕ
handle i = i

abbrev same_task : ℕ → ℕ → Bool
same_task a b = a == b

-- The call that wakes a thread.
abbrev hears : ℕ → Call ℕ ℕ → Bool
hears i (unpark t) = t == i
hears i (wake_task w) = false

abbrev found : Queue Cells (Unit {0}) → Bool
found q = finds_items vec no_notify q

not_found : found empty_queue ≡ false
unfolding dequeue dequeue_in swap
not_found = finds_items-Repr buffer_laws no_notify empty_queue 0 (fresh 4) empty_queue-Repr

found_two : found filled_queue ≡ true
unfolding dequeue dequeue_in swap
found_two = finds_items-Repr buffer_laws no_notify filled_queue 0 filled filled-Repr

abbrev WaitingForItems : Type 0
WaitingForItems =
    (s : Items.State (Queue Cells (Unit {0})) ℕ ℕ) × Items.Reach same_task handle 0 (hears 0) found
      s

-- The thread 0 waits, and the thread 1 has enqueued and has not called `wake` yet.
abbrev enqueued : WaitingForItems
enqueued =
    let begin : Items.Reach {W = ℕ} same_task handle 0 (hears 0) found (Items.new empty_queue) =
      Items.fresh empty_queue in
    let s1 =
      Items.later begin
        (Items.register_begins refl (Atomic.Move.register_start {cx = none} refl) refl) in
    let s2 = Items.later s1 (Items.register_goes_on refl (λ e. cc e) Atomic.Move.store) in
    let s3 =
      Items.later s2 (Items.register_goes_on refl (λ e. cc e) (Atomic.Move.give_back refl)) in
    let s4 = Items.later s3 (Items.register_ends refl) in
    let s5 = Items.later s4 (Items.parks empty_queue refl not_found not_found) in
    (_, Items.later s5 (Items.publishes 1 filled_queue refl))

-- It has called `wake`.
abbrev woken : WaitingForItems
woken =
    let s1 = Items.later enqueued.1 (Items.wake_begins 1 refl (Atomic.Move.wake_start refl) refl) in
    let s2 = Items.later s1 (Items.wake_goes_on 1 refl (λ e. cc e) Atomic.Move.take_waker) in
    let s3 = Items.later s2 (Items.wake_goes_on 1 refl (λ e. cc e) Atomic.Move.clear_waking) in
    let s4 = Items.later s3 (Items.wake_goes_on 1 refl (λ e. cc e) Atomic.Move.call) in
    (_, Items.later s4 (Items.wake_ends 1 refl))

woken_calm : (j : ℕ) → coming (woken.0.place j) ≡ false
woken_calm zero = refl
woken_calm (suc zero) = refl
woken_calm (suc (suc j)) = ground arith

dequeuer_woken_example : woken.0.token ≡ true
dequeuer_woken_example = dequeuer_woken woken.1 refl found_two woken_calm

dequeuer_called_example : CalledFrom same_task handle 0 (hears 0) found enqueued.0
dequeuer_called_example = dequeuer_called enqueued.1 refl found_two

abbrev goes : ℕ → Queue Cells (Unit {0}) → Bool
goes i q = finds_room vec values no_notify (λ n. n) 0 (7 ∷ 8 ∷ 9 ∷ []) q

not_goes : (i : ℕ) → goes i filled_queue ≡ false
unfolding enqueue
not_goes i =
    finds_room-Repr buffer_laws no_notify (array_laws buffer_laws cell_laws) (λ n. n) 0
      (7 ∷ 8 ∷ 9 ∷ []) (omega arith) filled_queue 0 filled filled-Repr

goes_now : (i : ℕ) → goes i empty_queue ≡ true
unfolding enqueue
goes_now i =
    finds_room-Repr buffer_laws no_notify (array_laws buffer_laws cell_laws) (λ n. n) 0
      (7 ∷ 8 ∷ 9 ∷ []) (omega arith) empty_queue 0 (fresh 4) empty_queue-Repr

abbrev WaitingForRoom : Type 0
WaitingForRoom = (s : Room.State (Queue Cells (Unit {0})) ℕ ℕ) × Room.Reach handle hears goes s

-- The thread 2 waits, and the thread 1 has emptied the queue and called `wake`.
abbrev emptied : WaitingForRoom
emptied =
    let begin : Room.Reach {W = ℕ} handle hears goes (Room.new filled_queue) =
      Room.fresh filled_queue in
    let s1 =
      Room.later begin (Room.register_begins 2 refl (Listed.Move.register_lock none refl) refl) in
    let s2 =
      Room.later s1 (Room.register_goes_on 2 refl (λ e. cc e) (Listed.Move.register_first refl)) in
    let s3 = Room.later s2 (Room.register_goes_on 2 refl (λ e. cc e) Listed.Move.register_push) in
    let s4 = Room.later s3 (Room.register_ends 2 refl) in
    let s5 = Room.later s4 (Room.parks 2 refl (not_goes 2)) in
    let s6 = Room.later s5 (Room.publishes 1 empty_queue refl) in
    let s7 = Room.later s6 (Room.wake_begins 1 refl (Listed.Move.wake_load refl) refl) in
    let s8 =
      Room.later s7 (Room.wake_goes_on 1 refl (λ e. cc e) (Listed.Move.wake_exchange refl)) in
    let s9 = Room.later s8 (Room.wake_goes_on 1 refl (λ e. cc e) (Listed.Move.wake_lock refl)) in
    let s10 = Room.later s9 (Room.wake_goes_on 1 refl (λ e. cc e) (Listed.Move.wake_call refl)) in
    let s11 =
      Room.later s10 (Room.wake_goes_on 1 refl (λ e. cc e) (Listed.Move.wake_unlock refl)) in
    (_, Room.later s11 (Room.wake_ends 1 refl))

emptied_calm : (j : ℕ) → Room_inv.coming (emptied.0.place j) ≡ false
emptied_calm zero = refl
emptied_calm (suc zero) = refl
emptied_calm (suc (suc zero)) = refl
emptied_calm (suc (suc (suc j))) = ground arith

enqueuer_woken_example : emptied.0.token 2 ≡ true
enqueuer_woken_example = enqueuer_woken emptied.1 2 refl (goes_now 2) emptied_calm
