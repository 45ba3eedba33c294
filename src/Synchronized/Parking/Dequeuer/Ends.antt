-- ===== src/Synchronized/Parking/Dequeuer/Ends.antt =====
-- The steps with which `register` ends, and those of `wake`, and the waker of the thread that waits.
use swap_buffer_queue.Prelude.{
  ℕ, ◌≡◌, ◌≢◌, ◌⊎◌, inl, inr, refl, ap, ◌∙◌, Bool, true, false, not, ◌||◌, Option, none, some, ◌==◌,
  Bool-cases, arith,
}
use swap_buffer_queue.Synchronized.Waker.{Waker, Call}
use swap_buffer_queue.Synchronized.AtomicWaker.{
  AtomicWaker, waiting, waking, Pc, idle, stored, taking, clearing, Move,
}
use swap_buffer_queue.Synchronized.AtomicWaker.Inv.{owns, registers, mine}
use swap_buffer_queue.Synchronized.AtomicWaker.Safety.{Reach-Inv, wake_left}
use swap_buffer_queue.Synchronized.Parking.{Place, registering, parked, notifying, hear, inner}
use swap_buffer_queue.Synchronized.Parking.Dequeuer.{State}
use swap_buffer_queue.Synchronized.Parking.Dequeuer.Heard.{
  or_true, is_idle, bound, clears, takes, is_full, role, heard,
}
use swap_buffer_queue.Synchronized.Parking.Dequeuer.Inv.{pcs, onward, coming, Armed, Inv}

or-false : (a b : Bool) → b ≡ false → (a || b) ≡ true → a ≡ true
or-false true b none_b e = refl
or-false false b none_b e = cc (none_b, e)

module _ {W T : Type 0} where
  clearing-bound : (cell : Option (Waker W T)) → bound (clearing cell) ≡ is_full cell
  clearing-bound none = refl
  clearing-bound (some _) = refl

  pub bound-onward : (p : Pc W T) → bound p ≡ true → onward p ≡ true
  bound-onward (clearing _) e = e
  bound-onward (Pc.handing_back _) e = e
  bound-onward (Pc.calling _) e = e
  bound-onward _ e = cc e

  pub bound-coming : (x : Place (Pc W T)) → bound (inner idle x) ≡ true → coming x ≡ true
  bound-coming (registering p) e = bound-onward p e
  bound-coming (notifying p) e = bound-onward p e
  bound-coming _ e = cc e

  pub onward-coming : (x : Place (Pc W T)) → onward (inner idle x) ≡ true → coming x ≡ true
  onward-coming (registering p) e = e
  onward-coming (notifying p) e = e
  onward-coming _ e = cc e

  -- A thread on the side of `wake` that does not go on to a call clears the bit of an empty cell.
  wake_side-onward :
      (p : Pc W T) → owns p ≡ true → registers p ≡ false → (onward p ≡ true) ⊎ (clears p ≡ true)
  wake_side-onward taking held side = inl refl
  wake_side-onward (clearing _) held side = inr refl
  wake_side-onward (Pc.storing _) held side = cc side
  wake_side-onward stored held side = cc side
  wake_side-onward Pc.taking_back held side = cc side
  wake_side-onward (Pc.handing_back _) held side = cc side
  wake_side-onward _ held side = cc held

  registers-place :
      (is_it : Bool) (x : Place (Pc W T))
      → role is_it x ≡ true
      → registers (inner idle x) ≡ true
      → is_it ≡ true
  registers-place true (registering p) e side = refl
  registers-place false (registering p) e side = cc e
  registers-place is_it (notifying p) e side = cc (side, e)
  registers-place is_it _ e side = cc side

  module _ {same_task : W → W → Bool} {current : T} (hears : Call W T → Bool)
      {m : AtomicWaker W T} where
    -- `register` ends with the waker in the cell, or with a call of it.
    pub registered-live :
        {p p' : Pc W T} {c : Option (Call W T)} {m' : AtomicWaker W T}
        → Move same_task current m p c m' p'
        → p ≢ idle
        → takes p ≡ false
        → heard hears current p ≡ true
        → (p ≡ stored → is_full m.waker ≡ true)
        → is_idle p' ≡ true
        → (token : Bool) → (hear hears c token || is_full m'.waker) ≡ true
    registered-live (Move.give_back _) ne side mine full e token = rw (full refl, or_true token)
    registered-live Move.call ne side mine full e token = rw (mine, or_true token)
    registered-live (Move.clear_waking {waker = none}) ne side mine full e token = cc side
    registered-live (Move.clear_waking {waker = some _}) ne side mine full e token = cc e
    registered-live (Move.register_woken _ _) ne side mine full e token = absurd (ne refl)
    registered-live (Move.register_busy _ _) ne side mine full e token = absurd (ne refl)
    registered-live (Move.wake_busy _) ne side mine full e token = absurd (ne refl)
    registered-live _ ne side mine full e token = cc e

    -- What a thread has taken it calls.
    pub onward-kept :
        {p p' : Pc W T} {c : Option (Call W T)} {m' : AtomicWaker W T}
        → Move same_task current m p c m' p'
        → onward p ≡ true
        → heard hears current p ≡ true
        → (p ≡ taking → is_full m.waker ≡ true)
        → (token : Bool) → (hear hears c token || onward p') ≡ true
    onward-kept Move.hand_back e mine full token = or_true token
    onward-kept Move.call e mine full token = rw (mine, or_true token)
    onward-kept (Move.clear_waking {waker = some _}) e mine full token = or_true token
    onward-kept (Move.clear_waking {waker = none}) e mine full token = cc e
    onward-kept Move.take_waker e mine full token =
        rw (clearing-bound m.waker ∙ full refl, or_true token)
    onward-kept _ e mine full token = cc e

  module _ {Q : Type 0} {same_task : W → W → Bool} {handle : ℕ → T} {consumer : ℕ}
      {hears : Call W T → Bool} {found : Q → Bool} {s : State Q W T}
      (inv : Inv same_task handle consumer hears found s) where
    open inv use {reach, cell, said, roles, void, armed, woken}

    -- Nobody else registers.
    pub lone_register : (j : ℕ) → registers (inner idle (s.place j)) ≡ true → consumer ≡ j
    lone_register j side =
        let is_it = registers-place (consumer == j) (s.place j) (roles j) side in
        ground (arith, is_it)

    -- While the consumer is not in `register`, a thread that has the cell wakes.
    pub owner_wakes :
        s.mem.state ≢ waiting
        → registers (inner idle (s.place consumer)) ≡ false
        → (s.mem.state ≡ waking)
          × ((j : ℕ) × ((onward (pcs s.place j) ≡ true) ⊎ (clears (pcs s.place j) ≡ true)))
    owner_wakes busy idle_consumer =
        let (j, held, side) = wake_left reach busy in
        elim (Bool-cases (s.mem.state == waking)) [
          | inl e ↦
              (ground (arith, e), (j, wake_side-onward (pcs s.place j) held (side ∙ ap not e)))
          | inr ne ↦
              let registering_j : registers (pcs s.place j) ≡ true = side ∙ ap not ne in
              let here : consumer ≡ j = lone_register j registering_j in
              absurd (cc (ap (λ k. registers (pcs s.place k)) here, registering_j, idle_consumer))
        ]

    -- A wake that is left to another thread.
    pub busy-Coming :
        s.mem.state ≢ waiting
        → s.place consumer ≡ parked
        → Armed s.token s.mem.waker s.place
        → (s.token ≡ true) ⊎ ((j : ℕ) × (onward (pcs s.place j) ≡ true))
    busy-Coming busy at (inr (j, e)) = inr (j, bound-onward (pcs s.place j) e)
    busy-Coming busy at (inl e) =
        let (j, there) = (owner_wakes busy (ap (λ x. registers (inner idle x)) at)).1 in
        elim there [
          | inl on ↦ inr (j, on)
          | inr clear ↦ inl (or-false s.token (is_full s.mem.waker) (ap is_full (void j clear)) e)
        ]

    -- When `register` gives the state back, the waker is in the cell.
    pub stored-full : (i : ℕ) → pcs s.place i ≡ stored → is_full s.mem.waker ≡ true
    stored-full i at =
        let (owner, core) = Reach-Inv reach in
        let (is_mine, known) = mine core i stored at refl in ap is_full known.1.1
