-- ===== src/Tests/Wakers.antt =====
-- The theorems on wakers, where a thread that registers is met by one that wakes, and where a thread
-- has registered in a list.
use swap_buffer_queue.Prelude.{ℕ, ◌≡◌, ◌≢◌, refl, true, not, none, arith, ◌==◌}
use swap_buffer_queue.Synchronized.AtomicWaker as Atomic
use swap_buffer_queue.Synchronized.AtomicWaker.Inv as Atomic_inv
use swap_buffer_queue.Synchronized.AtomicWaker.Safety.{cell_exclusive, never_panics, wake_left}
use swap_buffer_queue.Synchronized.WakerList as Listed
use swap_buffer_queue.Synchronized.WakerList.Safety.{Heard, never_stranded}

abbrev handle : ℕ → ℕ
handle i = i

abbrev Met : Type 0
Met = (s : Atomic.System ℕ ℕ) × Atomic.Reach (λ a b. a == b) handle s

abbrev met : Met
met =
    let begin : Atomic.Reach {W = ℕ} (λ a b. a == b) handle
        (record { mem = Atomic.new; pc = λ _. Atomic.idle }) =
      Atomic.fresh in
    let start = Atomic.later begin (Atomic.pick 0 (Atomic.Move.register_start {cx = none} refl)) in
    let stored = Atomic.later start (Atomic.pick 0 Atomic.Move.store) in
    (_, Atomic.later stored (Atomic.pick 1 (Atomic.Move.wake_busy (λ e. omega (arith, e)))))

cell_exclusive_example : ◌≡◌ {A = ℕ} 0 0
cell_exclusive_example = cell_exclusive met.1 0 0 refl refl

never_panics_example : met.0.pc 0 ≢ Atomic.panicked
never_panics_example = never_panics met.1 0

wake_left_example :
    (i : ℕ) × (Atomic_inv.owns (met.0.pc i) ≡ true)
    × (Atomic_inv.registers (met.0.pc i) ≡ not (met.0.mem.state == 2))
wake_left_example = wake_left met.1 (λ e. omega (arith, e))

abbrev ListedOne : Type 0
ListedOne = (s : Listed.System ℕ ℕ) × Listed.Reach handle s

abbrev listed : ListedOne
listed =
    let begin : Listed.Reach {W = ℕ} handle (record { mem = Listed.new; pc = λ _. Listed.idle }) =
      Listed.fresh in
    let locked = Listed.later begin (Listed.pick 0 (Listed.Move.register_lock none refl)) in
    let marked = Listed.later locked (Listed.pick 0 (Listed.Move.register_first refl)) in
    (_, Listed.later marked (Listed.pick 0 Listed.Move.register_push))

never_stranded_example : Heard listed.0.mem.non_empty listed.0.pc
never_stranded_example = never_stranded listed.1 (λ e. cc e)
