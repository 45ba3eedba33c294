-- ===== src/Synchronized/Parking/Dequeuer/Act.antt =====
-- One step of a thread in `register` or in `wake`, and the invariant.
use swap_buffer_queue.Prelude.{
  ℕ, ◌≡◌, ◌≢◌, inl, inr, refl, sym, ap, subst, ◌∙◌, Bool, true, Option, none, ◌==◌, Bool-cases,
  arith,
}
use swap_buffer_queue.Threads.{update, update_other, each-update}
use swap_buffer_queue.Synchronized.Waker.{Call}
use swap_buffer_queue.Synchronized.AtomicWaker.{
  AtomicWaker, waiting, waking, Pc, idle, storing, stored, taking_back, handing_back, taking,
  clearing, Move,
}
use swap_buffer_queue.Synchronized.AtomicWaker as Atomic
use swap_buffer_queue.Synchronized.AtomicWaker.Inv.{owns, registers}
use swap_buffer_queue.Synchronized.AtomicWaker.Safety.{cell_exclusive}
use swap_buffer_queue.Synchronized.Parking.{Place, parked, hear, inner, waits, inner-update}
use swap_buffer_queue.Synchronized.Parking.Dequeuer.{State}
use swap_buffer_queue.Synchronized.Parking.Dequeuer.Heard.{
  is_idle, clears, role, heard, allowed, cell-heard, pc-heard,
}
use swap_buffer_queue.Synchronized.Parking.Dequeuer.Side.{still-none, clears-none}
use swap_buffer_queue.Synchronized.Parking.Dequeuer.Inv.{
  pcs, coming, Armed, Coming, Inv, hear-kept, kept-Armed,
}

module _ {W T : Type 0} where
  clears-owns : (p : Pc W T) → clears p ≡ true → owns p ≡ true
  clears-owns (clearing _) e = refl
  clears-owns _ e = cc e

  registers-owns : (p : Pc W T) → registers p ≡ true → owns p ≡ true
  registers-owns (storing _) e = refl
  registers-owns stored e = refl
  registers-owns taking_back e = refl
  registers-owns (handing_back _) e = refl
  registers-owns _ e = cc e

  module _ {Q : Type 0} {same_task : W → W → Bool} {handle : ℕ → T} {consumer : ℕ}
      {hears : Call W T → Bool} {found : Q → Bool} {s : State Q W T}
      (inv : Inv same_task handle consumer hears found s) (i : ℕ) {m' : AtomicWaker W T}
      {p p' : Pc W T} {c : Option (Call W T)} (move : Move same_task (handle i) s.mem p c m' p')
      (ok : allowed hears move ≡ true) (x' : Place (Pc W T)) (at : inner idle (s.place i) ≡ p)
      (at' : inner idle x' ≡ p') where
    open inv use {reach, cell, said, roles, void, armed, woken}

    abbrev pub moved : State Q W T
    moved = record s { mem = m'; place = update s.place i x'; token = hear hears c s.token }

    mine : heard hears (handle i) p ≡ true
    mine = subst (λ q. heard hears (handle i) q ≡ true) at (said i)

    reach-act : Atomic.Reach same_task handle (record { mem = m'; pc = pcs (update s.place i x') })
    reach-act =
        let there : Move same_task (handle i) s.mem (pcs s.place i) c m' p' =
          subst (λ q. Move same_task (handle i) s.mem q c m' p') (sym at) move in
        let pcs' : update (pcs s.place) i p' ≡ pcs (update s.place i x') =
          ap (λ q. update (pcs s.place) i q) (sym at') ∙ sym (inner-update idle s.place i x') in
        subst (λ f. Atomic.Reach same_task handle (record { mem = m'; pc = f })) pcs'
          (Atomic.later reach (Atomic.pick i there))

    -- A thread that clears keeps the cell empty.
    void-act : (j : ℕ) → clears (inner idle (update s.place i x' j)) ≡ true → m'.waker ≡ none
    void-act j e = elim (Bool-cases (i == j)) [
      | inl same ↦
          let here : inner idle (update s.place i x' j) ≡ p' = rw same at' in
          clears-none move (subst (λ q. clears q ≡ true) here e)
      | inr ne ↦
          let other : i ≢ j = ground (arith, ne) in
          let there : clears (inner idle (s.place j)) ≡ true =
            subst (λ x. clears (inner idle x) ≡ true) (update_other s.place i j x' other) e in
          elim (Bool-cases (registers p)) [
            | inl side ↦
                let same : i ≡ j =
                  cell_exclusive reach i j (ap owns at ∙ registers-owns p side)
                    (clears-owns (inner idle (s.place j)) there) in
                absurd (other same)
            | inr side ↦ still-none move side (void j there)
          ]
    ]

    -- The consumer has registered, with this step or before.
    Armed-act :
        (consumer ≡ i → waits idle is_idle x' ≡ true → Armed moved.token m'.waker moved.place)
        → waits idle is_idle (moved.place consumer) ≡ true
        → Armed moved.token m'.waker moved.place
    Armed-act here e = elim (Bool-cases (i == consumer)) [
      | inl same ↦
          here (ground (arith, same)) (subst (λ x. waits idle is_idle x ≡ true) (rw same) e)
      | inr ne ↦
          let there : moved.place consumer ≡ s.place consumer = rw ne in
          kept-Armed hears move ok mine s.place i x' at at' s.token
            (armed (subst (λ x. waits idle is_idle x ≡ true) there e))
    ]

    woken-act :
        x' ≢ parked
        → (coming (s.place i) ≡ true
            → s.place consumer ≡ parked
            → Armed s.token s.mem.waker s.place
            → Coming moved.token moved.place)
        → moved.place consumer ≡ parked
        → found s.queue ≡ true
        → Coming moved.token moved.place
    woken-act unparked come at_park there = elim (Bool-cases (i == consumer)) [
      | inl same ↦
          let here : moved.place consumer ≡ x' = rw same in absurd (unparked (cc (here, at_park)))
      | inr ne ↦
          let same : moved.place consumer ≡ s.place consumer = rw ne in
          let before : s.place consumer ≡ parked = sym same ∙ at_park in
          elim (woken before there) [
            | inl e ↦ inl (rw e (hear-kept hears c))
            | inr (j, e) ↦ elim (Bool-cases (i == j)) [
              | inl here ↦
                  let is_it : j ≡ i = ground (arith, here) in
                  come (subst (λ k. coming (s.place k) ≡ true) is_it e) before
                    (armed (ap (λ x. waits idle is_idle x) before))
              | inr other ↦ inr (j, rw other e)
            ]
          ]
    ]

    pub act-Inv :
        role (consumer == i) x' ≡ true
        → x' ≢ parked
        → (consumer ≡ i → waits idle is_idle x' ≡ true → Armed moved.token m'.waker moved.place)
        → (coming (s.place i) ≡ true
            → s.place consumer ≡ parked
            → Armed s.token s.mem.waker s.place
            → Coming moved.token moved.place)
        → Inv same_task handle consumer hears found moved
    act-Inv role' unparked armed_here come = record {
      reach = reach-act;
      cell = cell-heard hears move ok cell mine;
      said =
          each-update (λ j x. heard hears (handle j) (inner idle x) ≡ true) s.place i x'
            (rw at' (pc-heard hears move ok cell mine)) (λ j ne. said j);
      roles =
          each-update (λ j x. role (consumer == j) x ≡ true) s.place i x' role' (λ j ne. roles j);
      void = void-act;
      armed = Armed-act armed_here;
      woken = woken-act unparked come;
    }
