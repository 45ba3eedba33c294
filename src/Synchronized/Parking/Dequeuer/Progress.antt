-- ===== src/Synchronized/Parking/Dequeuer/Progress.antt =====
-- The call of the thread that waits for items is at most a few steps of one other thread away.
use swap_buffer_queue.Prelude.{
  ℕ, ◌≡◌, ◌≢◌, inl, inr, refl, sym, ap, subst, ◌∙◌, Bool, true, false, not, ◌&&◌, Option, none,
  some, ◌==◌, Bool-cases, arith,
}
use swap_buffer_queue.Threads.{update, update_self, update_other}
use swap_buffer_queue.Synchronized.Waker.{Waker, Call, wake}
use swap_buffer_queue.Synchronized.AtomicWaker.{
  waiting, Pc, idle, taking, clearing, calling, handing_back, Move,
}
use swap_buffer_queue.Synchronized.Parking.{
  Place, registering, parked, published, notifying, inner, waits,
}
use swap_buffer_queue.Synchronized.Parking.Dequeuer.{State, Step, Reach}
use swap_buffer_queue.Synchronized.Parking.Dequeuer.Heard.{
  is_full, is_idle, bound, takes, role, heard, or_true,
}
use swap_buffer_queue.Synchronized.Parking.Dequeuer.Inv.{onward, coming, Inv}
use swap_buffer_queue.Synchronized.Parking.Dequeuer.Ends.{busy-Coming}
use swap_buffer_queue.Synchronized.Parking.Dequeuer.Woken.{or-either}
use swap_buffer_queue.Synchronized.Parking.Dequeuer.Safety.{Step-Inv, Reach-Inv}

and-left : (a b : Bool) → a && b ≡ true → a ≡ true
and-left true b e = refl
and-left false b e = cc e

cell-cases :
    {W T : Type 0} (cell : Option (Waker W T))
    → is_full cell ≡ true
    → (w : Waker W T) × (cell ≡ some w)
cell-cases none e = cc e
cell-cases (some w) e = (w, refl)

module _ {Q W T : Type 0} (same_task : W → W → Bool) (handle : ℕ → T) (consumer : ℕ)
    (hears : Call W T → Bool) (found : Q → Bool) where
  -- Any number of steps.
  pub data Leads : State Q W T → State Q W T → Type 0 where
    here : {s : State Q W T} → Leads s s
    then :
        {s t u : State Q W T}
        → Step same_task handle consumer hears found s t
        → Leads t u
        → Leads s u

  -- Steps in which the waiting thread has no part, and the queue stays as it is, make the call.
  abbrev pub CalledFrom : State Q W T → Type 0
  CalledFrom s =
      (t : State Q W T) × Leads s t
      × (t.place consumer ≡ parked)
      × (t.queue ≡ s.queue)
      × (t.token ≡ true)

module _ {Q W T : Type 0} {same_task : W → W → Bool} {handle : ℕ → T} {consumer : ℕ}
    {hears : Call W T → Bool} {found : Q → Bool} where
  at_once :
      {s : State Q W T}
      → s.place consumer ≡ parked
      → s.token ≡ true
      → CalledFrom same_task handle consumer hears found s
  at_once {s = s} at e = (s, here, at, refl, e)

  after :
      {s t : State Q W T}
      → Step same_task handle consumer hears found s t
      → t.queue ≡ s.queue
      → CalledFrom same_task handle consumer hears found t
      → CalledFrom same_task handle consumer hears found s
  after step same (u, leads, at, same', e) = (u, then step leads, at, same' ∙ same, e)

  module _ {s : State Q W T} (inv : Inv same_task handle consumer hears found s)
      (at_park : s.place consumer ≡ parked) (j : ℕ) where
    still_parked :
        {x : Place (Pc W T)} (x' : Place (Pc W T))
        → s.place j ≡ x
        → x ≢ parked
        → update s.place j x' consumer ≡ parked
    still_parked x' at other =
        let ne : j ≢ consumer = λ e. other (sym at ∙ ap (λ k. s.place k) e ∙ at_park) in
        update_other s.place j consumer x' ne ∙ at_park

    calling_called :
        (w : Waker W T)
        → s.place j ≡ notifying (calling w)
        → CalledFrom same_task handle consumer hears found s
    calling_called w at =
        let ours : hears (wake w) ≡ true =
          subst (λ x. heard hears (handle j) (inner idle x) ≡ true) at (inv.said j) in
        after (Step.wake_goes_on j at (λ e. cc e) Move.call) refl
          (at_once (still_parked (notifying idle) at (λ e. cc e)) (rw (ours, or_true s.token)))

  clearing_called :
      {s : State Q W T}
      → Inv same_task handle consumer hears found s
      → s.place consumer ≡ parked
      → (j : ℕ) (w : Waker W T) → s.place j ≡ notifying (clearing (some w))
      → CalledFrom same_task handle consumer hears found s
  clearing_called {s = s} inv at_park j w at =
      let step = Step.wake_goes_on j at (λ e. cc e) Move.clear_waking in
      after step refl (
        calling_called (Step-Inv inv step)
          (still_parked inv at_park j (notifying (calling w)) at (λ e. cc e)) j w
          (update_self s.place j (notifying (calling w))))

  -- Nobody registers while the only thread that does waits.
  lone :
      {A : Type 0} {s : State Q W T}
      → Inv same_task handle consumer hears found s
      → s.place consumer ≡ parked
      → (j : ℕ) (p : Pc W T) → s.place j ≡ registering p
      → A
  lone {s = s} inv at_park j p at =
      let is_it : (consumer == j) ≡ true =
        and-left (consumer == j) (not (takes p))
          (subst (λ x. role (consumer == j) x ≡ true) at (inv.roles j)) in
      let same : consumer ≡ j = ground (arith, is_it) in cc (ap (λ k. s.place k) same, at, at_park)

  bound_called :
      {s : State Q W T}
      → Inv same_task handle consumer hears found s
      → s.place consumer ≡ parked
      → (j : ℕ) (x : Place (Pc W T)) → s.place j ≡ x
      → bound (inner idle x) ≡ true
      → CalledFrom same_task handle consumer hears found s
  bound_called inv at_park j (notifying (calling w)) at e = calling_called inv at_park j w at
  bound_called inv at_park j (notifying (clearing (some w))) at e =
      clearing_called inv at_park j w at
  bound_called inv at_park j (notifying (handing_back w)) at e =
      cc (subst (λ x. role (consumer == j) x ≡ true) at (inv.roles j))
  bound_called inv at_park j (registering p) at e = lone inv at_park j p at
  bound_called inv at_park j _ at e = cc e

  taking_called :
      {s : State Q W T}
      → Inv same_task handle consumer hears found s
      → s.place consumer ≡ parked
      → (j : ℕ) → s.place j ≡ notifying taking
      → CalledFrom same_task handle consumer hears found s
  taking_called {s = s} inv at_park j at = elim (inv.armed (ap (waits idle is_idle) at_park)) [
    | inl e ↦ elim (or-either s.token (is_full s.mem.waker) e) [
      | inl token ↦ at_once at_park token
      | inr full ↦
          let (w, is_w) = cell-cases s.mem.waker full in
          let step = Step.wake_goes_on j at (λ e. cc e) Move.take_waker in
          after step refl (
            clearing_called (Step-Inv inv step)
              (still_parked inv at_park j (notifying (clearing s.mem.waker)) at (λ e. cc e)) j w
              (update_self s.place j (notifying (clearing s.mem.waker))
                ∙ ap (λ cell. notifying (clearing cell)) is_w))
    ]
    | inr (k, e) ↦ bound_called inv at_park k (s.place k) refl e
  ]

  -- A thread that is in `wake`.
  onward_called :
      {s : State Q W T}
      → Inv same_task handle consumer hears found s
      → s.place consumer ≡ parked
      → (j : ℕ) (x : Place (Pc W T)) → s.place j ≡ x
      → onward (inner idle x) ≡ true
      → CalledFrom same_task handle consumer hears found s
  onward_called inv at_park j (notifying taking) at e = taking_called inv at_park j at
  onward_called inv at_park j (notifying p) at e = bound_called inv at_park j (notifying p) at e
  onward_called inv at_park j (registering p) at e = lone inv at_park j p at
  onward_called inv at_park j _ at e = cc e

  -- A thread that is about to call it, where the state tells whether it has to leave it to another.
  published_called :
      {s : State Q W T}
      → Inv same_task handle consumer hears found s
      → s.place consumer ≡ parked
      → (j : ℕ) → s.place j ≡ published
      → CalledFrom same_task handle consumer hears found s
  published_called {s = s} inv at_park j at = elim (Bool-cases (s.mem.state == waiting)) [
    | inl e ↦
        let step = Step.wake_begins j at (Move.wake_start (ground (arith, e))) refl in
        after step refl (
          taking_called (Step-Inv inv step)
            (still_parked inv at_park j (notifying taking) at (λ e. cc e)) j
            (update_self s.place j (notifying taking)))
    | inr ne ↦
        elim (busy-Coming inv (ground (arith, ne)) at_park
          (inv.armed (ap (waits idle is_idle) at_park))) [
            | inl token ↦ at_once at_park token
            | inr (k, e) ↦ onward_called inv at_park k (s.place k) refl e
          ]
  ]

  coming_called :
      {s : State Q W T}
      → Inv same_task handle consumer hears found s
      → s.place consumer ≡ parked
      → (j : ℕ) (x : Place (Pc W T)) → s.place j ≡ x
      → coming x ≡ true
      → CalledFrom same_task handle consumer hears found s
  coming_called inv at_park j published at e = published_called inv at_park j at
  coming_called inv at_park j (registering p) at e =
      onward_called inv at_park j (registering p) at e
  coming_called inv at_park j (notifying p) at e = onward_called inv at_park j (notifying p) at e
  coming_called inv at_park j _ at e = cc e

  -- From a state that the threads can reach in any order of their steps, where a thread has registered
  -- with a context that wakes it, has looked at the queue and waits, and where the queue has something
  -- for it by now, the others can go on by themselves to a state where that thread has been called, with
  -- the same queue.
  pub dequeuer_called :
      {s : State Q W T}
      → Reach same_task handle consumer hears found s
      → s.place consumer ≡ parked
      → found s.queue ≡ true
      → CalledFrom same_task handle consumer hears found s
  dequeuer_called {s = s} reach at_park there =
      let inv = Reach-Inv reach in
      elim (inv.woken at_park there) [
        | inl token ↦ at_once at_park token
        | inr (j, e) ↦ coming_called inv at_park j (s.place j) refl e
      ]
