-- ===== src/Synchronized/Parking/Dequeuer/Safety.antt =====
-- A thread that waits for items is woken, in any order of the steps.
use swap_buffer_queue.Prelude.{
  ℕ, ◌≡◌, inl, inr, refl, ap, subst, ◌∙◌, Bool, true, false, not, ◌==◌, Bool-cases, arith,
}
use swap_buffer_queue.Threads.{update_self}
use swap_buffer_queue.Synchronized.Waker.{Call}
use swap_buffer_queue.Synchronized.AtomicWaker.{
  AtomicWaker, waiting, waking, Pc, idle, stored, taking, Move,
}
use swap_buffer_queue.Synchronized.AtomicWaker as Atomic
use swap_buffer_queue.Synchronized.AtomicWaker.Inv.{registers}
use swap_buffer_queue.Synchronized.Parking.{
  outside, registering, looking, parked, published, notifying, inner,
}
use swap_buffer_queue.Synchronized.Parking.Dequeuer.{State, new, Step, Reach, fresh, later}
use swap_buffer_queue.Synchronized.Parking.Dequeuer.Heard.{
  takes, role, heard, register-allowed, wake-allowed, busy-allowed,
}
use swap_buffer_queue.Synchronized.Parking.Dequeuer.Side.{
  registers-kept, takes-kept, register-side, wake-side,
}
use swap_buffer_queue.Synchronized.Parking.Dequeuer.Inv.{pcs, coming, Inv}
use swap_buffer_queue.Synchronized.Parking.Dequeuer.Act.{act-Inv}
use swap_buffer_queue.Synchronized.Parking.Dequeuer.Ends.{registered-live, stored-full}
use swap_buffer_queue.Synchronized.Parking.Dequeuer.Woken.{
  register_begins-Armed, wake_begins-Coming, wake_goes_on-Coming,
}
use swap_buffer_queue.Synchronized.Parking.Dequeuer.Rest.{consumer-Inv, leave-Inv, other-Inv}

not-true : (b : Bool) → not b ≡ true → b ≡ false
not-true true e = cc e
not-true false e = refl

module _ {W T : Type 0} where
  registering-role :
      (consumer : ℕ) (p : Pc W T)
      → takes p ≡ false
      → role (consumer == consumer) (registering p) ≡ true
  registering-role consumer p side =
      let self : (consumer == consumer) ≡ true = ground arith in rw (self, side)

  registering-side :
      (consumer : ℕ) (p : Pc W T)
      → role (consumer == consumer) (registering p) ≡ true
      → takes p ≡ false
  registering-side consumer p e =
      let self : (consumer == consumer) ≡ true = ground arith in not-true (takes p) (rw self at e)

  notifying-side :
      (is_it : Bool) (p : Pc W T) → role is_it (notifying p) ≡ true → registers p ≡ false
  notifying-side is_it p e = not-true (registers p) e

module _ {Q W T : Type 0} {same_task : W → W → Bool} {handle : ℕ → T} {consumer : ℕ}
    {hears : Call W T → Bool} {found : Q → Bool} where
  new-Inv : (queue : Q) → Inv same_task handle consumer hears found (new queue)
  new-Inv queue = record {
    reach = Atomic.fresh;
    cell = refl;
    said = λ j. refl;
    roles = λ j. refl;
    void = λ j e. refl;
    armed = λ e. cc e;
    woken = λ e. cc e;
  }

  module _ {s : State Q W T} (inv : Inv same_task handle consumer hears found s) where
    open inv use {said, roles, armed, woken}

    -- A change of the queue alone.
    queue-Inv :
        (queue : Q)
        → (s.place consumer ≡ parked → found queue ≡ true → found s.queue ≡ true)
        → Inv same_task handle consumer hears found (record s { queue = queue })
    queue-Inv queue kept = record {
      reach = inv.reach;
      cell = inv.cell;
      said = said;
      roles = roles;
      void = inv.void;
      armed = armed;
      woken = λ at there. woken at (kept at there);
    }

  pub Step-Inv :
      {s t : State Q W T}
      → Inv same_task handle consumer hears found s
      → Step same_task handle consumer hears found s t
      → Inv same_task handle consumer hears found t
  Step-Inv inv (Step.register_begins {p = p} at move ours) =
      act-Inv inv consumer move (register-allowed hears move ours) (registering p)
        (ap (inner idle) at) refl (registering-role consumer p (register-side hears move ours))
        (λ e. cc e) (λ e ends. inl (register_begins-Armed inv refl at move ours ends))
        (λ on at_park. cc (at, at_park))
  Step-Inv {s = s} inv (Step.register_goes_on {p = p} {p' = p'} at busy move) =
      let here : pcs s.place consumer ≡ p = ap (inner idle) at in
      let side : takes p ≡ false =
        registering-side consumer p
          (subst (λ x. role (consumer == consumer) x ≡ true) at (inv.roles consumer)) in
      act-Inv inv consumer move (busy-allowed hears move busy) (registering p') here refl
        (registering-role consumer p' (takes-kept move busy side)) (λ e. cc e)
        (λ e ends. inl (
          registered-live hears move busy side
            (subst (λ q. heard hears (handle consumer) q ≡ true) here (inv.said consumer))
            (λ is_stored. stored-full inv consumer (here ∙ is_stored)) ends s.token))
        (λ on at_park. cc (at, at_park))
  Step-Inv inv (Step.register_ends at) =
      consumer-Inv inv consumer looking at refl _ refl refl refl (λ e. cc e)
  Step-Inv inv (Step.finds queue at there) =
      leave-Inv inv consumer outside at refl queue _ refl refl refl
  Step-Inv inv (Step.parks queue at not_there still_not) =
      consumer-Inv inv consumer parked at refl queue refl refl refl (λ e. still_not)
  Step-Inv inv (Step.returns at) = leave-Inv inv consumer outside at refl _ false refl refl refl
  Step-Inv inv (Step.uses queue at) = queue-Inv inv queue (λ at_park. cc (at, at_park))
  Step-Inv inv (Step.changes queue kept) = queue-Inv inv queue (λ at_park. kept)
  Step-Inv {s = s} inv (Step.publishes i queue at) =
      other-Inv inv i published at refl queue refl refl
        (λ at_park there. inr (i, rw (update_self s.place i published)))
  Step-Inv inv (Step.wake_begins i {p = p} at move begins) =
      let side : registers p ≡ false = wake-side move begins in
      act-Inv inv i move (wake-allowed hears move begins) (notifying p) (ap (inner idle) at) refl
        (rw side) (λ e. cc e) (λ e ends. cc ends)
        (λ on. wake_begins-Coming inv i (ap (inner idle) at) move begins)
  Step-Inv {s = s} inv (Step.wake_goes_on i {p = p} {p' = p'} at busy move) =
      let side : registers p ≡ false =
        notifying-side (consumer == i) p
          (subst (λ x. role (consumer == i) x ≡ true) at (inv.roles i)) in
      act-Inv inv i move (busy-allowed hears move busy) (notifying p') (ap (inner idle) at) refl
        (rw (registers-kept move busy side)) (λ e. cc e) (λ e ends. cc ends)
        (λ on at_park. wake_goes_on-Coming inv i at move on)
  Step-Inv {s = s} inv (Step.wake_ends i at) =
      other-Inv inv i outside at refl s.queue refl refl (λ at_park there.
        elim (inv.woken at_park there) [
          | inl e ↦ inl e
          | inr (j, e) ↦ elim (Bool-cases (i == j)) [
            | inl same ↦
                let here : j ≡ i = ground (arith, same) in
                cc (ap (λ k. coming (s.place k)) here, ap coming at, e)
            | inr ne ↦ inr (j, rw ne e)
          ]
        ])

  pub Reach-Inv :
      {s : State Q W T}
      → Reach same_task handle consumer hears found s
      → Inv same_task handle consumer hears found s
  Reach-Inv (fresh queue) = new-Inv queue
  Reach-Inv (later before step) = Step-Inv (Reach-Inv before) step

  -- In a state that the threads can reach in any order of their steps, where a thread has registered
  -- with a context that wakes it, has looked at the queue and waits, and where the queue has something
  -- for it by now: if no thread is between a change of the queue and the call of `wake` that follows
  -- it, is about to take the waker out, or has taken one that it is going to call, then the thread that
  -- waits has been called.
  pub dequeuer_woken :
      {s : State Q W T}
      → Reach same_task handle consumer hears found s
      → s.place consumer ≡ parked
      → found s.queue ≡ true
      → ((j : ℕ) → coming (s.place j) ≡ false)
      → s.token ≡ true
  dequeuer_woken reach at there calm = elim ((Reach-Inv reach).woken at there) [
    | inl e ↦ e
    | inr (j, e) ↦ cc (calm j, e)
  ]
