-- ===== src/Synchronized/Parking/Enqueuers/Safety.antt =====
-- A thread that waits for room is woken, in any order of the steps.
use swap_buffer_queue.Prelude.{
  ℕ, ◌≡◌, inl, inr, refl, sym, ap, subst, ◌∙◌, Bool, true, false, not, Option,
}
use swap_buffer_queue.Threads.{update, update_other}
use swap_buffer_queue.Synchronized.Waker.{Call}
use swap_buffer_queue.Synchronized.WakerList.{WakerList, Pc, idle, Move}
use swap_buffer_queue.Synchronized.WakerList as Listed
use swap_buffer_queue.Synchronized.Parking.{
  Place, outside, registering, looking, parked, published, notifying, hear, inner,
}
use swap_buffer_queue.Synchronized.Parking.Enqueuers.{State, new, Step, Reach, fresh, later}
use swap_buffer_queue.Synchronized.Parking.Enqueuers.Heard.{
  is_idle, adds, wakes, role, listed, heard, pc-heard, register-heard, registered-live, wake-side,
  adds-kept, wakes-kept,
}
use swap_buffer_queue.Synchronized.Parking.Enqueuers.Inv.{pcs, coming, Inv, rest-Inv}
use swap_buffer_queue.Synchronized.Parking.Enqueuers.Act.{
  act-Inv, wake_begins-Coming, wake_goes_on-Coming,
}

not-true : (b : Bool) → not b ≡ true → b ≡ false
not-true true e = cc e
not-true false e = refl

module _ {Q W T : Type 0} {handle : ℕ → T} {hears : ℕ → Call W T → Bool} {goes : ℕ → Q → Bool} where
  new-Inv : (queue : Q) → Inv handle hears goes (new queue)
  new-Inv queue = record {
    reach = Listed.fresh;
    said = λ j. refl;
    roles = λ j. refl;
    armed = λ j e. cc e;
    woken = λ j e. cc e;
  }

  registering-Inv :
      {s : State Q W T}
      → Inv handle hears goes s
      → (i : ℕ) {p p' : Pc W T} {c : Option (Call W T)} {m' : WakerList W T} {x : Place (Pc W T)}
      → s.place i ≡ x
      → coming x ≡ false
      → Move (handle i) s.mem p c m' p'
      → inner idle x ≡ p
      → heard (hears i) p' ≡ true
      → wakes p' ≡ false
      → (is_idle p' ≡ true → listed (hears i) m'.wakers ≡ true)
      → Inv handle hears goes (record s {
        mem = m';
        place = update s.place i (registering p');
        token = λ j. hear (hears j) c (s.token j);
      })
  registering-Inv inv i {p' = p'} at quiet move here heard' side live' =
      act-Inv inv i (registering p') move (ap (inner idle) at ∙ here) refl heard' (rw side)
        (λ e. cc e) live' (λ k on known. cc (ap coming at, quiet, on))

  pub Step-Inv :
      {s t : State Q W T}
      → Inv handle hears goes s
      → Step handle hears goes s t
      → Inv handle hears goes t
  Step-Inv inv (Step.register_begins i {p = p} at move ours) =
      let (heard', (side, goes_on)) = register-heard (hears i) move ours in
      registering-Inv inv i at refl move refl heard' side (λ e. cc (e, goes_on))
  Step-Inv inv (Step.register_goes_on i {p = p} at busy move) =
      let here : heard (hears i) p ≡ true =
        subst (λ q. heard (hears i) q ≡ true) (ap (inner idle) at) (inv.said i) in
      let side : wakes p ≡ false =
        not-true (wakes p) (subst (λ x. role x ≡ true) at (inv.roles i)) in
      registering-Inv inv i at side move refl (pc-heard (hears i) move busy here)
        (wakes-kept move busy side) (λ e. registered-live (hears i) move busy side here e)
  Step-Inv {s = s} inv (Step.register_ends i at) =
      rest-Inv inv i looking at refl refl (λ e. refl) s.queue (λ j ne e. inl e) (λ e. cc e)
        (λ e. cc e) s.token (λ j ne. refl) (λ e. refl)
  Step-Inv {s = s} inv (Step.finds i queue at there quiet) =
      rest-Inv inv i outside at refl refl (λ e. cc e) queue (λ j ne e. inl (quiet j e)) (λ e. cc e)
        (λ e. cc e) s.token (λ j ne. refl) (λ e. refl)
  Step-Inv {s = s} inv (Step.parks i at not_there) =
      rest-Inv inv i parked at refl refl (λ e. refl) s.queue (λ j ne e. inl e) (λ e. not_there)
        (λ e. cc e) s.token (λ j ne. refl) (λ e. refl)
  Step-Inv {s = s} inv (Step.returns i at) =
      rest-Inv inv i outside at refl refl (λ e. cc e) s.queue (λ j ne e. inl e) (λ e. cc e)
        (λ e. cc e) (update s.token i false) (λ j ne. update_other s.token i j false ne) (λ e. cc e)
  Step-Inv inv (Step.changes queue quiet) = record {
    reach = inv.reach;
    said = inv.said;
    roles = inv.roles;
    armed = inv.armed;
    woken = λ j at there. inv.woken j at (quiet j there);
  }
  Step-Inv {s = s} inv (Step.publishes i queue at) =
      rest-Inv inv i published at refl refl (λ e. cc e) queue (λ j ne e. inr refl) (λ e. cc e)
        (λ e. refl) s.token (λ j ne. refl) (λ e. refl)
  Step-Inv inv (Step.wake_begins i {p = p} at move begins) =
      let (side, quiet) = wake-side move begins in
      act-Inv inv i (notifying p) move (ap (inner idle) at) refl (quiet (hears i)) (rw side)
        (λ e. cc e) (λ e. cc e)
        (λ k on known. wake_begins-Coming inv i k (ap (inner idle) at) move begins known)
  Step-Inv {s = s} inv (Step.wake_goes_on i {p = p} {p' = p'} at busy move) =
      let here : pcs s.place i ≡ p = ap (inner idle) at in
      let side : adds p ≡ false = not-true (adds p) (subst (λ x. role x ≡ true) at (inv.roles i)) in
      act-Inv inv i (notifying p') move here refl
        (pc-heard (hears i) move busy (subst (λ q. heard (hears i) q ≡ true) here (inv.said i)))
        (rw (adds-kept move busy side)) (λ e. cc e) (λ e. cc e)
        (λ k on known. wake_goes_on-Coming inv i k here (sym (ap coming at) ∙ on) move known)
  Step-Inv {s = s} inv (Step.wake_ends i at) =
      rest-Inv inv i outside at refl refl (λ e. cc e) s.queue (λ j ne e. inl e) (λ e. cc e)
        (λ e. cc e) s.token (λ j ne. refl) (λ e. refl)

  Reach-Inv : {s : State Q W T} → Reach handle hears goes s → Inv handle hears goes s
  Reach-Inv (fresh queue) = new-Inv queue
  Reach-Inv (later before step) = Step-Inv (Reach-Inv before) step

  -- In a state that the threads can reach in any order of their steps, where a thread has registered
  -- with a context that wakes it, has looked at the queue and waits, and where its value would not have
  -- to wait by now: if no thread is between a change of the queue and the call of `wake` that follows
  -- it, has seen the flag up, or is going through the list, then the thread that waits has been called.
  pub enqueuer_woken :
      {s : State Q W T}
      → Reach handle hears goes s
      → (i : ℕ) → s.place i ≡ parked
      → goes i s.queue ≡ true
      → ((j : ℕ) → coming (s.place j) ≡ false)
      → s.token i ≡ true
  enqueuer_woken reach i at there calm = elim ((Reach-Inv reach).woken i at there) [
    | inl e ↦ e
    | inr (j, e) ↦ cc (calm j, e)
  ]
