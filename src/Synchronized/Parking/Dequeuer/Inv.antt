-- ===== src/Synchronized/Parking/Dequeuer/Inv.antt =====
-- What holds of the thread that waits for items, and of those that notify, between two steps.
use swap_buffer_queue.Prelude.{
  ℕ, ◌≡◌, ◌⊎◌, inl, inr, refl, sym, subst, Bool, true, false, ◌||◌, Option, none, some, ◌==◌,
  Bool-cases, arith,
}
use swap_buffer_queue.Threads.{update, update_self}
use swap_buffer_queue.Synchronized.Waker.{Waker, Call}
use swap_buffer_queue.Synchronized.AtomicWaker.{
  AtomicWaker, waiting, waking, Pc, idle, taking, clearing, Move,
}
use swap_buffer_queue.Synchronized.AtomicWaker as Atomic
use swap_buffer_queue.Synchronized.Parking.{Place, parked, published, hear, inner, waits}
use swap_buffer_queue.Synchronized.Parking.Dequeuer.{State}
use swap_buffer_queue.Synchronized.Parking.Dequeuer.Heard.{
  is_idle, bound, clears, is_full, live, role, heard_cell, heard, allowed, live-kept,
}

or-cases : (a b d : Bool) → (a || (b || d)) ≡ true → ((a || b) ≡ true) ⊎ (d ≡ true)
or-cases true b d e = inl refl
or-cases false true d e = inl refl
or-cases false false d e = inr e

or_left : (a b d : Bool) → (a || b) ≡ true → (a || (b || d)) ≡ true
or_left true b d e = refl
or_left false true d e = refl
or_left false false d e = cc e

or_right : (a b d : Bool) → d ≡ true → (a || (b || d)) ≡ true
or_right true b d e = refl
or_right false true d e = refl
or_right false false d e = e

module _ {W T : Type 0} where
  abbrev pub pcs : (ℕ → Place (Pc W T)) → ℕ → Pc W T
  pcs place j = inner idle (place j)

  -- Is going to call the waker that is in the cell, or one that it has taken.
  abbrev pub onward : Pc W T → Bool
  onward taking = true
  onward p = bound p

  abbrev pub coming : Place (Pc W T) → Bool
  coming published = true
  coming x = onward (inner idle x)

  -- The consumer has been called, or its waker is in the cell or in the hands of a thread.
  abbrev pub Armed : Bool → Option (Waker W T) → (ℕ → Place (Pc W T)) → Type 0
  Armed token cell place =
      ((token || is_full cell) ≡ true) ⊎ ((j : ℕ) × (bound (inner idle (place j)) ≡ true))

  -- The consumer has been called, or some thread is going to call it.
  abbrev pub Coming : Bool → (ℕ → Place (Pc W T)) → Type 0
  Coming token place = (token ≡ true) ⊎ ((j : ℕ) × (coming (place j) ≡ true))

  module _ {Q : Type 0} (same_task : W → W → Bool) (handle : ℕ → T) (consumer : ℕ)
      (hears : Call W T → Bool) (found : Q → Bool) where
    pub record Inv (s : State Q W T) : Type 0 where
      pub reach : Atomic.Reach same_task handle (record { mem = s.mem; pc = pcs s.place })
      pub cell : heard_cell hears s.mem.waker ≡ true
      pub said : (j : ℕ) → heard hears (handle j) (inner idle (s.place j)) ≡ true
      pub roles : (j : ℕ) → role (consumer == j) (s.place j) ≡ true
      pub void : (j : ℕ) → clears (inner idle (s.place j)) ≡ true → s.mem.waker ≡ none
      pub armed : waits idle is_idle (s.place consumer) ≡ true → Armed s.token s.mem.waker s.place
      pub woken : s.place consumer ≡ parked → found s.queue ≡ true → Coming s.token s.place

  pub hear-kept : (hears : Call W T → Bool) (c : Option (Call W T)) → hear hears c true ≡ true
  hear-kept hears none = refl
  hear-kept hears (some c) = refl

  -- A thread that stands at `p` takes one step.
  module _ {same_task : W → W → Bool} {current : T} (hears : Call W T → Bool)
      {m m' : AtomicWaker W T} {p p' : Pc W T} {c : Option (Call W T)}
      (move : Move same_task current m p c m' p') (ok : allowed hears move ≡ true)
      (mine : heard hears current p ≡ true) (place : ℕ → Place (Pc W T)) (i : ℕ)
      (x' : Place (Pc W T)) (at : inner idle (place i) ≡ p) (at' : inner idle x' ≡ p')
      (token : Bool) where
    pub live-Armed :
        live token m.waker p ≡ true → Armed (hear hears c token) m'.waker (update place i x')
    live-Armed known =
        elim (or-cases (hear hears c token) (is_full m'.waker) (bound p')
          (live-kept hears move ok mine token known)) [
            | inl e ↦ inl e
            | inr e ↦ inr (i, rw (update_self place i x', at') e)
          ]

    pub kept-Armed :
        Armed token m.waker place → Armed (hear hears c token) m'.waker (update place i x')
    kept-Armed (inl e) = live-Armed (or_left token (is_full m.waker) (bound p) e)
    kept-Armed (inr (j, e)) = elim (Bool-cases (i == j)) [
      | inl same ↦
          let here : i ≡ j = ground (arith, same) in
          let mine' : bound p ≡ true =
            subst (λ q. bound q ≡ true) at
              (subst (λ k. bound (inner idle (place k)) ≡ true) (sym here) e) in
          live-Armed (or_right token (is_full m.waker) (bound p) mine')
      | inr ne ↦ inr (j, rw ne e)
    ]
