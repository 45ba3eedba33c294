-- ===== src/Synchronized/Parking/Enqueuers/Act.antt =====
-- One step of a thread in `register` or in `wake`, and the invariant.
use swap_buffer_queue.Prelude.{
  ℕ, ◌≡◌, ◌≢◌, ◌⊎◌, inl, inr, refl, sym, ap, subst, ◌∙◌, Bool, true, false, ◌||◌, Option, none,
  some, ◌==◌, Bool-cases, arith,
}
use swap_buffer_queue.Threads.{update, update_self, each-update}
use swap_buffer_queue.Synchronized.Waker.{Call}
use swap_buffer_queue.Synchronized.WakerList.{
  WakerList, Pc, idle, loaded, exchanged, draining, Move,
}
use swap_buffer_queue.Synchronized.WakerList as Listed
use swap_buffer_queue.Synchronized.WakerList.Safety.{drains}
use swap_buffer_queue.Synchronized.Parking.{
  Place, parked, notifying, hear, inner, waits, inner-update,
}
use swap_buffer_queue.Synchronized.Parking.Enqueuers.{State, calls_wake}
use swap_buffer_queue.Synchronized.Parking.Enqueuers.Heard.{
  is_idle, wakes, role, listed, heard, live-kept,
}
use swap_buffer_queue.Synchronized.Parking.Enqueuers.Inv.{
  pcs, coming, wakes-coming, drains-wakes, Coming, Inv, flag-Coming,
}

or_right : (b : Bool) → b || true ≡ true
or_right true = refl
or_right false = refl

or_none : (b : Bool) → (b || false) ≡ true → b ≡ true
or_none true e = refl
or_none false e = e

module _ {Q W T : Type 0} {handle : ℕ → T} {hears : ℕ → Call W T → Bool} {goes : ℕ → Q → Bool}
    {s : State Q W T} (inv : Inv handle hears goes s) (i : ℕ) where
  open inv use {reach, said, roles, armed, woken}

  hear-kept : (k : ℕ) (c : Option (Call W T)) → hear (hears k) c true ≡ true
  hear-kept k none = refl
  hear-kept k (some c) = refl

  pub act-Inv :
      {m' : WakerList W T} {p p' : Pc W T} {c : Option (Call W T)} (x' : Place (Pc W T))
      → Move (handle i) s.mem p c m' p'
      → pcs s.place i ≡ p
      → inner idle x' ≡ p'
      → heard (hears i) p' ≡ true
      → role x' ≡ true
      → x' ≢ parked
      → (waits idle is_idle x' ≡ true → listed (hears i) m'.wakers ≡ true)
      → ((k : ℕ)
          → coming (s.place i) ≡ true
          → (s.token k || listed (hears k) s.mem.wakers) ≡ true
          → Coming (hear (hears k) c (s.token k)) (update s.place i x'))
      → Inv handle hears goes (record s {
        mem = m';
        place = update s.place i x';
        token = λ j. hear (hears j) c (s.token j);
      })
  act-Inv {m' = m'} {p = p} {p' = p'} {c = c} x' move at at' heard' role' unparked live' come =
      record {
        reach =
            let there : Move (handle i) s.mem (pcs s.place i) c m' p' =
              subst (λ q. Move (handle i) s.mem q c m' p') (sym at) move in
            let pcs' : update (pcs s.place) i p' ≡ pcs (update s.place i x') =
              ap (λ q. update (pcs s.place) i q) (sym at') ∙ sym (inner-update idle s.place i x') in
            subst (λ f. Listed.Reach handle (record { mem = m'; pc = f })) pcs'
              (Listed.later reach (Listed.pick i there));
        said =
            each-update (λ j x. heard (hears j) (inner idle x) ≡ true) s.place i x' (rw at' heard')
              (λ j ne. said j);
        roles = each-update (λ j x. role x ≡ true) s.place i x' role' (λ j ne. roles j);
        armed =
            each-update
              (λ j x.
                waits idle is_idle x ≡ true
                → (hear (hears j) c (s.token j) || listed (hears j) m'.wakers) ≡ true)
              s.place i x' (λ e. rw (live' e) (or_right (hear (hears i) c (s.token i))))
              (λ j ne e. live-kept (hears j) move (s.token j) (armed j e));
        woken =
            each-update
              (λ j x.
                x ≡ parked
                → goes j s.queue ≡ true
                → Coming (hear (hears j) c (s.token j)) (update s.place i x'))
              s.place i x' (λ e there. absurd (unparked e))
              (λ j ne e there. elim (woken j e there) [
                | inl token_j ↦ inl (rw token_j (hear-kept j c))
                | inr (k, e') ↦ elim (Bool-cases (i == k)) [
                  | inl same ↦
                      let here : k ≡ i = ground (arith, same) in
                      come j (subst (λ l. coming (s.place l) ≡ true) here e')
                        (armed j (ap (λ x. waits idle is_idle x) e))
                  | inr other ↦ inr (k, rw other e')
                ]
              ]);
      }

  -- A thread that goes through the list, while this one is not in it.
  other-Coming :
      (k : ℕ) (x' : Place (Pc W T)) {p : Pc W T}
      → pcs s.place i ≡ p
      → drains p ≡ false
      → (s.token k ≡ true) ⊎ ((j : ℕ) × (drains (pcs s.place j) ≡ true))
      → Coming (s.token k) (update s.place i x')
  other-Coming k x' at not_me (inl e) = inl e
  other-Coming k x' at not_me (inr (j, e)) = elim (Bool-cases (i == j)) [
    | inl same ↦
        let here : j ≡ i = ground (arith, same) in
        cc (ap (λ l. drains (pcs s.place l)) here, ap drains at, not_me, e)
    | inr ne ↦ inr (j, rw ne (wakes-coming (s.place j) (drains-wakes (pcs s.place j) e)))
  ]

  pub wake_begins-Coming :
      (k : ℕ) {m' : WakerList W T} {p p' : Pc W T} {c : Option (Call W T)}
      → pcs s.place i ≡ idle
      → (move : Move (handle i) s.mem p c m' p') → calls_wake move ≡ true
      → (s.token k || listed (hears k) s.mem.wakers) ≡ true
      → Coming (hear (hears k) c (s.token k)) (update s.place i (notifying p'))
  wake_begins-Coming k at (Move.wake_none down) begins known =
      other-Coming k (notifying idle) at refl (flag-Coming inv k down known)
  wake_begins-Coming k at (Move.wake_load up) begins known =
      inr (i, rw (update_self s.place i (notifying loaded)))
  wake_begins-Coming k at _ begins known = cc begins

  pub wake_goes_on-Coming :
      (k : ℕ) {m' : WakerList W T} {p p' : Pc W T} {c : Option (Call W T)}
      → pcs s.place i ≡ p
      → wakes p ≡ true
      → Move (handle i) s.mem p c m' p'
      → (s.token k || listed (hears k) s.mem.wakers) ≡ true
      → Coming (hear (hears k) c (s.token k)) (update s.place i (notifying p'))
  wake_goes_on-Coming k at on (Move.wake_late down) known =
      other-Coming k (notifying idle) at refl (flag-Coming inv k down known)
  wake_goes_on-Coming k at on (Move.wake_exchange up) known =
      inr (i, rw (update_self s.place i (notifying exchanged)))
  wake_goes_on-Coming k at on (Move.wake_lock free) known =
      inr (i, rw (update_self s.place i (notifying draining)))
  wake_goes_on-Coming k at on (Move.wake_call next) known =
      inr (i, rw (update_self s.place i (notifying draining)))
  wake_goes_on-Coming k at on (Move.wake_unlock void) known =
      inl (or_none (s.token k) (subst (λ ws. (s.token k || listed (hears k) ws) ≡ true) void known))
  wake_goes_on-Coming k at on _ known = cc on
