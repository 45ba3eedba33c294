-- ===== src/Synchronized/Parking/Dequeuer/Rest.antt =====
-- The steps outside `register` and `wake`, and the invariant.
use swap_buffer_queue.Prelude.{
  ℕ, ◌≡◌, inl, inr, sym, ap, subst, ◌∙◌, Bool, true, false, ◌==◌, Bool-cases, arith,
}
use swap_buffer_queue.Threads.{update, update_self, each-update}
use swap_buffer_queue.Synchronized.Waker.{Call}
use swap_buffer_queue.Synchronized.AtomicWaker.{AtomicWaker, waiting, waking, Pc, idle}
use swap_buffer_queue.Synchronized.AtomicWaker as Atomic
use swap_buffer_queue.Synchronized.Parking.{Place, parked, inner, waits, inner-same}
use swap_buffer_queue.Synchronized.Parking.Dequeuer.{State}
use swap_buffer_queue.Synchronized.Parking.Dequeuer.Heard.{is_idle, bound, clears, role, heard}
use swap_buffer_queue.Synchronized.Parking.Dequeuer.Inv.{pcs, Armed, Coming, Inv}

module _ {Q W T : Type 0} {same_task : W → W → Bool} {handle : ℕ → T} {consumer : ℕ}
    {hears : Call W T → Bool} {found : Q → Bool} {s : State Q W T}
    (inv : Inv same_task handle consumer hears found s) (i : ℕ) {x : Place (Pc W T)}
    (x' : Place (Pc W T)) (at : s.place i ≡ x) (still : inner idle x' ≡ inner idle x) where
  open inv use {reach, cell, said, roles, void, armed, woken}

  same_pcs : pcs (update s.place i x') ≡ pcs s.place
  same_pcs = inner-same idle s.place i x' (still ∙ sym (ap (inner idle) at))

  same-Armed : Armed s.token s.mem.waker s.place → Armed s.token s.mem.waker (update s.place i x')
  same-Armed (inl e) = inl e
  same-Armed (inr (j, e)) = inr (j, subst (λ f. bound (f j) ≡ true) (sym same_pcs) e)

  -- The change of the place of another thread than the one that waits.
  other-Armed :
      waits idle is_idle x' ≡ false
      → waits idle is_idle (update s.place i x' consumer) ≡ true
      → Armed s.token s.mem.waker (update s.place i x')
  other-Armed quiet e = elim (Bool-cases (i == consumer)) [
    | inl same ↦
        let here : update s.place i x' consumer ≡ x' = rw same in
        cc (ap (waits idle is_idle) here, quiet, e)
    | inr ne ↦
        let there : update s.place i x' consumer ≡ s.place consumer = rw ne in
        same-Armed (armed (subst (λ y. waits idle is_idle y ≡ true) there e))
  ]

  pub rest-Inv :
      (queue : Q) (token : Bool)
      → role (consumer == i) x' ≡ true
      → (waits idle is_idle (update s.place i x' consumer) ≡ true
          → Armed token s.mem.waker (update s.place i x'))
      → (update s.place i x' consumer ≡ parked
          → found queue ≡ true
          → Coming token (update s.place i x'))
      → Inv same_task handle consumer hears found
          (record s { queue = queue; place = update s.place i x'; token = token })
  rest-Inv queue token role' armed' woken' = record {
    reach =
        subst (λ f. Atomic.Reach same_task handle (record { mem = s.mem; pc = f })) (sym same_pcs)
          reach;
    cell = cell;
    said = λ j. subst (λ f. heard hears (handle j) (f j) ≡ true) (sym same_pcs) (said j);
    roles = each-update (λ j y. role (consumer == j) y ≡ true) s.place i x' role' (λ j ne. roles j);
    void = λ j e. void j (subst (λ f. clears (f j) ≡ true) same_pcs e);
    armed = armed';
    woken = woken';
  }

  -- The waiting thread goes on.
  pub consumer-Inv :
      (queue : Q)
      → consumer ≡ i
      → role true x' ≡ true
      → waits idle is_idle x ≡ true
      → (x' ≡ parked → found queue ≡ false)
      → Inv same_task handle consumer hears found
          (record s { queue = queue; place = update s.place i x' })
  consumer-Inv queue is_it role' waiting_before looked =
      let here : update s.place i x' consumer ≡ x' =
        subst (λ k. update s.place i x' k ≡ x') (sym is_it) (update_self s.place i x') in
      rest-Inv queue s.token (let e : (consumer == i) ≡ true = ground (arith, is_it) in rw e role')
        (λ e. same-Armed (
          armed (
            subst (λ k. waits idle is_idle (s.place k) ≡ true) (sym is_it)
              (ap (waits idle is_idle) at ∙ waiting_before))))
        (λ e there. let no : found queue ≡ false = looked (sym here ∙ e) in cc (no, there))

  -- The waiting thread, or one that notifies, is done.
  pub leave-Inv :
      (queue : Q) (token : Bool)
      → consumer ≡ i
      → role true x' ≡ true
      → waits idle is_idle x' ≡ false
      → Inv same_task handle consumer hears found
          (record s { queue = queue; place = update s.place i x'; token = token })
  leave-Inv queue token is_it role' quiet =
      let here : update s.place i x' consumer ≡ x' =
        subst (λ k. update s.place i x' k ≡ x') (sym is_it) (update_self s.place i x') in
      rest-Inv queue token (let e : (consumer == i) ≡ true = ground (arith, is_it) in rw e role')
        (λ e. cc (ap (waits idle is_idle) here, quiet, e))
        (λ e there. cc (ap (waits idle is_idle) e, ap (waits idle is_idle) here, quiet))

  -- Of any other.
  pub other-Inv :
      (queue : Q)
      → role (consumer == i) x' ≡ true
      → waits idle is_idle x' ≡ false
      → (s.place consumer ≡ parked → found queue ≡ true → Coming s.token (update s.place i x'))
      → Inv same_task handle consumer hears found
          (record s { queue = queue; place = update s.place i x' })
  other-Inv queue role' quiet woken' = rest-Inv queue s.token role' (other-Armed quiet) (λ e there.
      elim (Bool-cases (i == consumer)) [
        | inl same ↦
            let here : update s.place i x' consumer ≡ x' = rw same in
            cc (ap (waits idle is_idle) e, ap (waits idle is_idle) here, quiet)
        | inr ne ↦
            let same : update s.place i x' consumer ≡ s.place consumer = rw ne in
            woken' (sym same ∙ e) there
      ])
