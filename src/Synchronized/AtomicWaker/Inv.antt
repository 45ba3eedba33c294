-- ===== src/Synchronized/AtomicWaker/Inv.antt =====
-- Who has the cell of an `AtomicWaker`, and what the state says of it.
use Prim.Native.Nat.{bit_or}
use swap_buffer_queue.Prelude.{
  ℕ, ◌≡◌, ◌≢◌, ◌⊎◌, inl, inr, refl, sym, ap, subst, ◌∙◌, Bool, true, false, not, Option, none, some,
  ◌==◌, Bool-cases, arith,
}
use swap_buffer_queue.Threads.{update, update_self, sole_mine, sole_none}
use swap_buffer_queue.Synchronized.Waker.{Waker, Call, will_wake}
use swap_buffer_queue.Synchronized.Waker as Waker_of
use swap_buffer_queue.Synchronized.AtomicWaker.{
  AtomicWaker, waiting, registering, waking, stored_waker, Pc, storing, stored, taking_back,
  handing_back, taking, clearing, panicked,
}

-- Between the change of the state that gives a thread the cell and the one that gives it back.
abbrev pub owns : {W T : Type 0} → Pc W T → Bool
owns (storing _) = true
owns stored = true
owns taking_back = true
owns (handing_back _) = true
owns taking = true
owns (clearing _) = true
owns _ = false

-- On the side of `register`.
abbrev pub registers : {W T : Type 0} → Pc W T → Bool
registers (storing _) = true
registers stored = true
registers taking_back = true
registers (handing_back _) = true
registers _ = false

abbrev pub Held : ℕ → Type 0
Held state = (state ≡ registering) ⊎ (state ≡ 3)

module _ {W T : Type 0} where
  abbrev pub Full : Option (Waker W T) → Type 0
  Full cell = (waker : Waker W T) × (cell ≡ some waker)

  -- What the thread that has the cell knows, by where it stands.
  abbrev pub Owned : (state : ℕ) → Option (Waker W T) → Pc W T → Type 0
  Owned state cell (storing _) = Held state
  Owned state cell stored = Held state × Full cell
  Owned state cell taking_back = (state ≡ 3) × Full cell
  Owned state cell (handing_back _) = state ≡ 3
  Owned state cell taking = state ≡ waking
  Owned state cell (clearing _) = state ≡ waking
  Owned state cell _ = ⊥

  abbrev pub Kept : AtomicWaker W T → (ℕ → Pc W T) → Option ℕ → Type 0
  Kept m pc none = m.state ≡ waiting
  Kept m pc (some i) = Owned m.state m.waker (pc i)

  -- `owner` has the cell.
  pub record Inv (m : AtomicWaker W T) (pc : ℕ → Pc W T) (owner : Option ℕ) : Type 0 where
    pub kept : Kept m pc owner
    pub sole : (j : ℕ) → owns (pc j) ≡ true → owner ≡ some j
    pub calm : (j : ℕ) → pc j ≢ panicked

  Owned-owns :
      (state : ℕ) (cell : Option (Waker W T)) (p : Pc W T) → Owned state cell p → owns p ≡ true
  Owned-owns state cell (storing _) o = refl
  Owned-owns state cell stored o = refl
  Owned-owns state cell taking_back o = refl
  Owned-owns state cell (handing_back _) o = refl
  Owned-owns state cell taking o = refl
  Owned-owns state cell (clearing _) o = refl
  Owned-owns state cell _ o = absurd o

  module _ {m : AtomicWaker W T} {pc : ℕ → Pc W T} {owner : Option ℕ} (inv : Inv m pc owner)
      (i : ℕ) where
    open inv use {kept, sole, calm}

    calm_after : (p' : Pc W T) → p' ≢ panicked → (j : ℕ) → update pc i p' j ≢ panicked
    calm_after p' fine j = elim (Bool-cases (i == j)) [
      | inl e ↦ rw e fine
      | inr ne ↦ rw ne (calm j)
    ]

    pub mine : (p : Pc W T) → pc i ≡ p → owns p ≡ true → (owner ≡ some i) × Owned m.state m.waker p
    mine p at held =
        let is_mine : owner ≡ some i = sole i (ap owns at ∙ held) in
        (is_mine, subst (Owned m.state m.waker) at (subst (Kept m pc) is_mine kept))

    -- The thread has the cell afterwards.
    pub hold-Inv :
        (m' : AtomicWaker W T) (p' : Pc W T)
        → (owner ≡ none) ⊎ (owner ≡ some i)
        → p' ≢ panicked
        → Owned m'.state m'.waker p'
        → Inv m' (update pc i p') (some i)
    hold-Inv m' p' free_or_mine fine known = record {
      kept = rw (update_self pc i p') known;
      sole = sole_mine owns pc i p' owner sole free_or_mine;
      calm = calm_after p' fine;
    }

    -- The thread gives the cell back.
    pub free-Inv :
        (m' : AtomicWaker W T) (p' : Pc W T)
        → owner ≡ some i
        → owns p' ≡ false
        → p' ≢ panicked
        → m'.state ≡ waiting
        → Inv m' (update pc i p') none
    free-Inv m' p' is_mine free fine state = record {
      kept = state;
      sole = sole_none owns pc i p' owner sole is_mine free;
      calm = calm_after p' fine;
    }

    quiet-Kept :
        (m' : AtomicWaker W T) (p' : Pc W T) (o : Option ℕ)
        → owns (pc i) ≡ false
        → Kept m' pc o
        → Kept m' (update pc i p') o
    quiet-Kept m' p' none free known = known
    quiet-Kept m' p' (some j) free known = elim (Bool-cases (i == j)) [
      | inl e ↦
          let here : j ≡ i = ground (arith, e) in
          let held : owns (pc i) ≡ true =
            ap (λ a. owns (pc a)) (sym here) ∙ Owned-owns m'.state m'.waker (pc j) known in
          cc
      | inr ne ↦ rw ne known
    ]

    -- A step of a thread that does not have the cell, before or after.
    pub quiet-Inv :
        (m' : AtomicWaker W T) (p' : Pc W T)
        → owns (pc i) ≡ false
        → owns p' ≡ false
        → p' ≢ panicked
        → Kept m' pc owner
        → Inv m' (update pc i p') owner
    quiet-Inv m' p' free free' fine known = record {
      kept = quiet-Kept m' p' owner free known;
      sole = λ j held. elim (Bool-cases (i == j)) [
        | inl e ↦ let here : update pc i p' j ≡ p' = rw e in cc (ap owns here)
        | inr ne ↦ sole j (ap owns (sym (rw ne)) ∙ held)
      ];
      calm = calm_after p' fine;
    }

  -- The bit of a waking thread, set again or set while a thread registers.
  waking-Owned :
      (state : ℕ) (cell : Option (Waker W T)) (p : Pc W T)
      → Owned state cell p
      → Owned (bit_or state waking) cell p
  waking-Owned state cell (storing _) o = elim o [ inl e ↦ inr (rw e) | inr e ↦ inr (rw e) ]
  waking-Owned state cell stored o = (elim o.0 [ inl e ↦ inr (rw e) | inr e ↦ inr (rw e) ], o.1)
  waking-Owned state cell taking_back o = (rw o.0, o.1)
  waking-Owned state cell (handing_back _) o = rw o
  waking-Owned state cell taking o = rw o
  waking-Owned state cell (clearing _) o = rw o
  waking-Owned state cell _ o = absurd o

  pub waking-Kept :
      (m : AtomicWaker W T) (pc : ℕ → Pc W T) (o : Option ℕ)
      → m.state ≢ waiting
      → Kept m pc o
      → Kept (record m { state = bit_or m.state waking }) pc o
  waking-Kept m pc none busy known = absurd (busy known)
  waking-Kept m pc (some j) busy known = waking-Owned m.state m.waker (pc j) known

  busy_Owned : (cell : Option (Waker W T)) (p : Pc W T) → ¬ Owned waiting cell p
  busy_Owned cell (storing _) o = elim o [ inl e ↦ omega (arith, e) | inr e ↦ omega (arith, e) ]
  busy_Owned cell stored o = elim o.0 [ inl e ↦ omega (arith, e) | inr e ↦ omega (arith, e) ]
  busy_Owned cell taking_back o = omega (arith, o.0)
  busy_Owned cell (handing_back _) o = omega (arith, o)
  busy_Owned cell taking o = omega (arith, o)
  busy_Owned cell (clearing _) o = omega (arith, o)
  busy_Owned cell _ o = o

  -- Nobody has the cell while the state is waiting.
  pub waiting_free :
      (m : AtomicWaker W T) (pc : ℕ → Pc W T) (o : Option ℕ)
      → m.state ≡ waiting
      → Kept m pc o
      → o ≡ none
  waiting_free m pc none e known = refl
  waiting_free m pc (some j) e known =
      absurd (busy_Owned m.waker (pc j) (subst (λ s. Owned s m.waker (pc j)) e known))

  pub stored_waker-Full :
      (same_task : W → W → Bool) (current : T) (cx : Option W) (cell : Option (Waker W T))
      → Full (stored_waker same_task current cx cell)
  stored_waker-Full same_task current cx none = (Waker_of.new current cx, refl)
  stored_waker-Full same_task current cx (some old) =
      elim (Bool-cases (will_wake same_task old cx)) [
        | inl e ↦ (old, rw e)
        | inr ne ↦ (Waker_of.new current cx, rw ne)
      ]

  -- The state tells on which side the thread is that has the cell.
  Owned-registers :
      (state : ℕ) (cell : Option (Waker W T)) (p : Pc W T)
      → Owned state cell p
      → registers p ≡ not (state == waking)
  Owned-registers state cell (storing _) o = elim o [ inl e ↦ rw e | inr e ↦ rw e ]
  Owned-registers state cell stored o = elim o.0 [ inl e ↦ rw e | inr e ↦ rw e ]
  Owned-registers state cell taking_back o = rw o.0
  Owned-registers state cell (handing_back _) o = rw o
  Owned-registers state cell taking o = rw o
  Owned-registers state cell (clearing _) o = rw o
  Owned-registers state cell _ o = absurd o

  pub busy_side :
      {m : AtomicWaker W T} {pc : ℕ → Pc W T} (owner : Option ℕ)
      → Inv m pc owner
      → m.state ≢ waiting
      → (i : ℕ) × (owns (pc i) ≡ true) × (registers (pc i) ≡ not (m.state == waking))
  busy_side none inv busy = absurd (busy inv.kept)
  busy_side {m = m} {pc = pc} (some i) inv busy = (
    i,
    Owned-owns m.state m.waker (pc i) inv.kept,
    Owned-registers m.state m.waker (pc i) inv.kept,
  )
