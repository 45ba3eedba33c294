-- ===== src/Synchronized/Parking/Dequeuer/Woken.antt =====
-- The waker of the thread that waits for items, when `register` begins and while a thread is in `wake`.
use swap_buffer_queue.Prelude.{
  ℕ, ◌≡◌, ◌⊎◌, inl, inr, refl, sym, ap, subst, ◌∙◌, Bool, true, false, ◌||◌, Option, ◌==◌,
  Bool-cases, arith,
}
use swap_buffer_queue.Threads.{update, update_self}
use swap_buffer_queue.Synchronized.Waker.{Call}
use swap_buffer_queue.Synchronized.AtomicWaker.{AtomicWaker, Pc, idle, taking, Move}
use swap_buffer_queue.Synchronized.AtomicWaker.Inv.{registers}
use swap_buffer_queue.Synchronized.Parking.{outside, parked, notifying, hear, inner}
use swap_buffer_queue.Synchronized.Parking.Dequeuer.{State, calls_register, calls_wake}
use swap_buffer_queue.Synchronized.Parking.Dequeuer.Heard.{is_idle, bound, is_full, heard, or_true}
use swap_buffer_queue.Synchronized.Parking.Dequeuer.Inv.{
  pcs, onward, coming, Armed, Coming, Inv, hear-kept,
}
use swap_buffer_queue.Synchronized.Parking.Dequeuer.Ends.{
  onward-kept, onward-coming, bound-coming, owner_wakes, busy-Coming,
}

pub or-either : (a b : Bool) → (a || b) ≡ true → (a ≡ true) ⊎ (b ≡ true)
or-either true b e = inl refl
or-either false b e = inr e

module _ {Q W T : Type 0} {same_task : W → W → Bool} {handle : ℕ → T} {consumer : ℕ}
    {hears : Call W T → Bool} {found : Q → Bool} {s : State Q W T}
    (inv : Inv same_task handle consumer hears found s) where
  open inv use {reach, cell, said, roles, void, armed, woken}

  -- What the first step of `register` leaves, if it is the last.
  pub register_begins-Armed :
      {c : Option (Call W T)} {m' : AtomicWaker W T} {p p' : Pc W T}
      → p ≡ idle
      → s.place consumer ≡ outside
      → (move : Move same_task (handle consumer) s.mem p c m' p') → calls_register hears move ≡ true
      → is_idle p' ≡ true
      → (hear hears c s.token || is_full m'.waker) ≡ true
  register_begins-Armed begin at (Move.register_woken cx _) ours e = rw (ours, or_true s.token)
  register_begins-Armed begin at (Move.register_busy busy no_wake) ours e =
      let side : registers (inner idle (s.place consumer)) ≡ false =
        ap (λ x. registers (inner idle x)) at in
      absurd (no_wake (owner_wakes inv busy side).0)
  register_begins-Armed begin at (Move.register_start _) ours e = cc e
  register_begins-Armed begin at _ ours e = cc ours

  -- The first step of `wake` goes on to the call, or leaves it to another thread.
  pub wake_begins-Coming :
      (i : ℕ) {c : Option (Call W T)} {m' : AtomicWaker W T} {p p' : Pc W T}
      → inner idle (s.place i) ≡ idle
      → (move : Move same_task (handle i) s.mem p c m' p') → calls_wake move ≡ true
      → s.place consumer ≡ parked
      → Armed s.token s.mem.waker s.place
      → Coming (hear hears c s.token) (update s.place i (notifying p'))
  wake_begins-Coming i at (Move.wake_start _) begins at_park known =
      inr (i, rw (update_self s.place i (notifying taking)))
  wake_begins-Coming i at (Move.wake_busy busy) begins at_park known =
      elim (busy-Coming inv busy at_park known) [
        | inl e ↦ inl e
        | inr (j, e) ↦ elim (Bool-cases (i == j)) [
          | inl same ↦
              let here : j ≡ i = ground (arith, same) in
              cc (ap (λ k. onward (pcs s.place k)) here, ap onward at, e)
          | inr ne ↦ inr (j, rw ne (onward-coming (s.place j) e))
        ]
      ]
  wake_begins-Coming i at _ begins at_park known = cc begins

  module _ (i : ℕ) {c : Option (Call W T)} {m' : AtomicWaker W T} {p p' : Pc W T}
      (at : s.place i ≡ notifying p) (move : Move same_task (handle i) s.mem p c m' p') where
    at_inner : pcs s.place i ≡ p
    at_inner = ap (inner idle) at

    onward_before : coming (s.place i) ≡ true → onward p ≡ true
    onward_before on = sym (ap coming at) ∙ on

    taken-Coming :
        onward p ≡ true
        → (p ≡ taking → is_full s.mem.waker ≡ true)
        → Coming (hear hears c s.token) (update s.place i (notifying p'))
    taken-Coming on full =
        elim (or-either (hear hears c s.token) (onward p') (
          onward-kept hears move on (subst (λ q. heard hears (handle i) q ≡ true) at_inner (said i))
            full s.token)) [
              | inl e ↦ inl e
              | inr e ↦ inr (i, rw (update_self s.place i (notifying p')) e)
            ]

    pub wake_goes_on-Coming :
        coming (s.place i) ≡ true
        → Armed s.token s.mem.waker s.place
        → Coming (hear hears c s.token) (update s.place i (notifying p'))
    wake_goes_on-Coming on (inl e) = elim (or-either s.token (is_full s.mem.waker) e) [
      | inl token ↦ inl (rw token (hear-kept hears c))
      | inr full ↦ taken-Coming (onward_before on) (λ e'. full)
    ]
    wake_goes_on-Coming on (inr (j, e)) = elim (Bool-cases (i == j)) [
      | inl same ↦
          let here : j ≡ i = ground (arith, same) in
          taken-Coming (onward_before on)
            (λ e'. cc (ap (λ k. bound (pcs s.place k)) here, ap bound at_inner, ap bound e', e))
      | inr ne ↦ inr (j, rw ne (bound-coming (s.place j) e))
    ]
