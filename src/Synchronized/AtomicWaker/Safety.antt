-- ===== src/Synchronized/AtomicWaker/Safety.antt =====
-- The invariant of an `AtomicWaker`, step by step, and what it says of any order of the steps.
use swap_buffer_queue.Prelude.{
  ℕ, ◌≡◌, ◌≢◌, inl, inr, refl, ap, Bool, true, not, ◌==◌, Option, none, some,
}
use swap_buffer_queue.Threads.{update}
use swap_buffer_queue.Synchronized.Waker.{Waker, Call}
use swap_buffer_queue.Synchronized.AtomicWaker.{
  AtomicWaker, waiting, waking, Pc, idle, storing, stored, taking_back, handing_back, taking,
  clearing, calling, panicked, after_clear, Move, System, Step, pick, Reach, fresh, later,
}
use swap_buffer_queue.Synchronized.AtomicWaker.Inv.{
  busy_side, registers, owns, Inv, mine, hold-Inv, free-Inv, quiet-Inv, waking-Kept, waiting_free,
  stored_waker-Full,
}

module _ {W T : Type 0} where
  module _ {m : AtomicWaker W T} {pc : ℕ → Pc W T} {owner : Option ℕ} (inv : Inv m pc owner)
      (i : ℕ) where
    abbrev After : AtomicWaker W T → Pc W T → Type 0
    After m' p' = (owner' : Option ℕ) × Inv m' (update pc i p') owner'

    free_before : m.state ≡ waiting → owner ≡ none
    free_before e = waiting_free m pc owner e inv.kept

    clear-After :
        (w : Option (Waker W T)) (m' : AtomicWaker W T)
        → pc i ≡ clearing w
        → m'.state ≡ waiting
        → After m' (after_clear w)
    clear-After none m' at state =
        (none, free-Inv inv i m' idle (mine inv i (clearing none) at refl).0 refl (λ e. cc e) state)
    clear-After (some w) m' at state = (
      none,
      free-Inv inv i m' (calling w) (mine inv i (clearing (some w)) at refl).0 refl (λ e. cc e)
          state,
    )

    Move-After :
        {same_task : W → W → Bool} {current : T} {p p' : Pc W T} {c : Option (Call W T)}
        {m' : AtomicWaker W T}
        → pc i ≡ p
        → Move same_task current m p c m' p'
        → After m' p'
    Move-After at (Move.register_start {cx = cx} e) =
        (some i, hold-Inv inv i _ (storing cx) (inl (free_before e)) (λ e'. cc e') (inl refl))
    Move-After at (Move.register_woken cx e) =
        (owner, quiet-Inv inv i m idle (ap owns at) refl (λ e'. cc e') inv.kept)
    Move-After at (Move.register_busy e e') =
        (owner, quiet-Inv inv i m idle (ap owns at) refl (λ e'. cc e') inv.kept)
    Move-After {same_task = same_task} {current = current} at (Move.store {cx = cx}) =
        let (is_mine, known) = mine inv i (storing cx) at refl in
        (
          some i,
          hold-Inv inv i _ stored (inr is_mine) (λ e. cc e)
              (known, stored_waker-Full same_task current cx m.waker),
        )
    Move-After at (Move.give_back e) =
        (none, free-Inv inv i _ idle (mine inv i stored at refl).0 refl (λ e'. cc e') refl)
    Move-After at (Move.give_back_fails e) =
        let (is_mine, known) = mine inv i stored at refl in
        (
          some i,
          hold-Inv inv i m taking_back (inr is_mine) (λ e'. cc e')
              (elim known.0 [ inl one ↦ absurd (e one) | inr three ↦ three ], known.1),
        )
    Move-After at (Move.take_back {waker = w} e) =
        let (is_mine, known) = mine inv i taking_back at refl in
        (some i, hold-Inv inv i _ (handing_back w) (inr is_mine) (λ e'. cc e') known.0)
    Move-After at (Move.take_back_panics e) =
        let (is_mine, known) = mine inv i taking_back at refl in absurd (cc (e, known.1.1))
    Move-After at (Move.hand_back {waker = w}) = (
      none,
      free-Inv inv i _ (calling w) (mine inv i (handing_back w) at refl).0 refl (λ e. cc e) refl,
    )
    Move-After at (Move.call {waker = w}) =
        (owner, quiet-Inv inv i m idle (ap owns at) refl (λ e. cc e) inv.kept)
    Move-After at (Move.wake_start e) =
        (some i, hold-Inv inv i _ taking (inl (free_before e)) (λ e'. cc e') (rw e))
    Move-After at (Move.wake_busy e) = (
      owner,
      quiet-Inv inv i _ idle (ap owns at) refl (λ e'. cc e') (waking-Kept m pc owner e inv.kept),
    )
    Move-After at Move.take_waker =
        let (is_mine, state) = mine inv i taking at refl in
        (some i, hold-Inv inv i _ (clearing m.waker) (inr is_mine) (λ e. cc e) state)
    Move-After at (Move.clear_waking {waker = w}) =
        clear-After w _ at (rw (mine inv i (clearing w) at refl).1)

  Step-Inv :
      {same_task : W → W → Bool} {handle : ℕ → T} {s t : System W T} (owner : Option ℕ)
      → Inv s.mem s.pc owner
      → Step same_task handle s t
      → (owner' : Option ℕ) × Inv t.mem t.pc owner'
  Step-Inv owner inv (pick i move) = Move-After inv i refl move

  pub Reach-Inv :
      {same_task : W → W → Bool} {handle : ℕ → T} {s : System W T}
      → Reach same_task handle s
      → (owner : Option ℕ) × Inv s.mem s.pc owner
  Reach-Inv fresh =
      (none, record { kept = refl; sole = λ j held. absurd (cc held); calm = λ j e. cc e })
  Reach-Inv (later before step) = let (owner, inv) = Reach-Inv before in Step-Inv owner inv step

  module _ {same_task : W → W → Bool} {handle : ℕ → T} {s : System W T}
      (reach : Reach same_task handle s) where
    -- In a state of an `AtomicWaker` that threads can reach in any order of their steps, at most one
    -- thread is between the change of the state that gives it the cell and the one that gives it
    -- back.
    pub cell_exclusive : (i j : ℕ) → owns (s.pc i) ≡ true → owns (s.pc j) ≡ true → i ≡ j
    cell_exclusive i j held held' =
        let (owner, inv) = Reach-Inv reach in cc (inv.sole i held, inv.sole j held')

    -- In a state of an `AtomicWaker` that threads can reach in any order of their steps, no thread
    -- has unwrapped an empty cell.
    pub never_panics : (i : ℕ) → s.pc i ≢ panicked
    never_panics i = let (owner, inv) = Reach-Inv reach in inv.calm i

    -- In a state of an `AtomicWaker` that threads can reach in any order of their steps, when the
    -- state is not the waiting one, so that `wake` leaves the waker to another thread, there is a
    -- thread that has the cell: one that wakes if the state is the waking bit alone, else one that
    -- registers.
    pub wake_left :
        s.mem.state ≢ waiting
        → (i : ℕ) × (owns (s.pc i) ≡ true) × (registers (s.pc i) ≡ not (s.mem.state == waking))
    wake_left busy = let (owner, inv) = Reach-Inv reach in busy_side owner inv busy
