-- ===== src/Synchronized/Parking/Enqueuers/Inv.antt =====
-- What holds of the threads that wait for room, and of those that notify, between two steps.
use swap_buffer_queue.Prelude.{
  ℕ, ◌≡◌, ◌≢◌, ◌⊎◌, inl, inr, refl, sym, ap, subst, ◌∙◌, Bool, true, false, ◌||◌, ◌==◌, Bool-cases,
  arith,
}
use swap_buffer_queue.Threads.{update, update_self, each-update}
use swap_buffer_queue.Synchronized.Waker.{Call}
use swap_buffer_queue.Synchronized.WakerList.{
  WakerList, Pc, idle, loaded, exchanged, draining, Move,
}
use swap_buffer_queue.Synchronized.WakerList as Listed
use swap_buffer_queue.Synchronized.WakerList.Safety.{drains, never_stranded}
use swap_buffer_queue.Synchronized.Parking.{
  Place, registering, parked, published, notifying, inner, waits, inner-same,
}
use swap_buffer_queue.Synchronized.Parking.Enqueuers.{State}
use swap_buffer_queue.Synchronized.Parking.Enqueuers.Heard.{
  is_idle, wakes, role, listed, heard, listed-some,
}

module _ {W T : Type 0} where
  abbrev pub pcs : (ℕ → Place (Pc W T)) → ℕ → Pc W T
  pcs place j = inner idle (place j)

  -- Is going to call `wake`, or to go through the list.
  abbrev pub coming : Place (Pc W T) → Bool
  coming published = true
  coming x = wakes (inner idle x)

  pub wakes-coming : (x : Place (Pc W T)) → wakes (inner idle x) ≡ true → coming x ≡ true
  wakes-coming (registering p) e = e
  wakes-coming (notifying p) e = e
  wakes-coming _ e = cc e

  pub drains-wakes : (p : Pc W T) → drains p ≡ true → wakes p ≡ true
  drains-wakes exchanged e = refl
  drains-wakes draining e = refl
  drains-wakes _ e = cc e

  -- The thread has been called, or some thread is going to call all that are listed.
  abbrev pub Coming : Bool → (ℕ → Place (Pc W T)) → Type 0
  Coming token place = (token ≡ true) ⊎ ((j : ℕ) × (coming (place j) ≡ true))

  module _ {Q : Type 0} (handle : ℕ → T) (hears : ℕ → Call W T → Bool) (goes : ℕ → Q → Bool) where
    pub record Inv (s : State Q W T) : Type 0 where
      pub reach : Listed.Reach handle (record { mem = s.mem; pc = pcs s.place })
      pub said : (j : ℕ) → heard (hears j) (pcs s.place j) ≡ true
      pub roles : (j : ℕ) → role (s.place j) ≡ true
      pub armed :
          (j : ℕ)
          → waits idle is_idle (s.place j) ≡ true
          → (s.token j || listed (hears j) s.mem.wakers) ≡ true
      pub woken : (j : ℕ) → s.place j ≡ parked → goes j s.queue ≡ true → Coming (s.token j) s.place

  module _ {Q : Type 0} {handle : ℕ → T} {hears : ℕ → Call W T → Bool} {goes : ℕ → Q → Bool}
      {s : State Q W T} (inv : Inv handle hears goes s) where
    open inv use {reach, said, roles, armed, woken}

    -- While the flag is down, a thread is going through the list, or this one has been called.
    pub flag-Coming :
        (k : ℕ)
        → s.mem.non_empty ≡ false
        → (s.token k || listed (hears k) s.mem.wakers) ≡ true
        → (s.token k ≡ true) ⊎ ((j : ℕ) × (drains (pcs s.place j) ≡ true))
    flag-Coming k down known = elim (Bool-cases (s.token k)) [
      | inl e ↦ inl e
      | inr ne ↦
          let there : listed (hears k) s.mem.wakers ≡ true = rw ne at known in
          elim (never_stranded reach (listed-some (hears k) s.mem.wakers there)) [
            | inl up ↦ cc (up, down)
            | inr (j, e) ↦ inr (j, e)
          ]
    ]

    -- A change of a place outside the functions of the notifier.
    pub rest-Inv :
        (i : ℕ) {x : Place (Pc W T)} (x' : Place (Pc W T))
        → s.place i ≡ x
        → inner idle x' ≡ inner idle x
        → role x' ≡ true
        → (waits idle is_idle x' ≡ true → waits idle is_idle x ≡ true)
        → (queue : Q)
        → ((j : ℕ) → i ≢ j → goes j queue ≡ true → (goes j s.queue ≡ true) ⊎ (coming x' ≡ true))
        → (x' ≡ parked → goes i queue ≡ false)
        → (coming x ≡ true → coming x' ≡ true)
        → (token : ℕ → Bool) → ((j : ℕ) → i ≢ j → token j ≡ s.token j)
        → (waits idle is_idle x' ≡ true → token i ≡ s.token i)
        → Inv handle hears goes
            (record s { queue = queue; place = update s.place i x'; token = token })
    rest-Inv i x' at still role' waits' queue quiet looked come token others self =
        let same_pcs : pcs (update s.place i x') ≡ pcs s.place =
          inner-same idle s.place i x' (still ∙ sym (ap (inner idle) at)) in
        record {
          reach =
              subst (λ f. Listed.Reach handle (record { mem = s.mem; pc = f })) (sym same_pcs)
                reach;
          said = λ j. subst (λ f. heard (hears j) (f j) ≡ true) (sym same_pcs) (said j);
          roles = each-update (λ j y. role y ≡ true) s.place i x' role' (λ j ne. roles j);
          armed =
              each-update
                (λ j y.
                  waits idle is_idle y ≡ true → (token j || listed (hears j) s.mem.wakers) ≡ true)
                s.place i x' (λ e. rw (self e) (armed i (ap (waits idle is_idle) at ∙ waits' e)))
                (λ j ne e. rw (others j ne) (armed j e));
          woken =
              each-update
                (λ j y. y ≡ parked → goes j queue ≡ true → Coming (token j) (update s.place i x'))
                s.place i x' (λ e there. cc (looked e, there))
                (λ j ne e there. elim (quiet j ne there) [
                  | inl before ↦ elim (woken j e before) [
                    | inl token_j ↦ inl (others j ne ∙ token_j)
                    | inr (k, e') ↦ elim (Bool-cases (i == k)) [
                      | inl same ↦
                          let here : k ≡ i = ground (arith, same) in
                          inr (
                            i,
                            rw (update_self s.place i x') (
                                come (
                                  sym (ap coming at)
                                  ∙ subst (λ l. coming (s.place l) ≡ true) here e')),
                          )
                      | inr other ↦ inr (k, rw other e')
                    ]
                  ]
                  | inr now ↦ inr (i, rw (update_self s.place i x') now)
                ]);
        }
