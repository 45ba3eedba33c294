-- ===== src/Synchronized/WakerList/Safety.antt =====
-- The mutex and the flag of a list of wakers, in any order of the steps.
use swap_buffer_queue.Prelude.{
  ℕ, ◌≡◌, ◌≢◌, ◌⊎◌, inl, inr, refl, sym, ap, ◌∙◌, Bool, true, false, Option, none, some, arith,
  ◌==◌, Bool-cases, List, [],
}
use swap_buffer_queue.Threads.{update, update_self, sole_mine, sole_none}
use swap_buffer_queue.Synchronized.Waker.{Waker, Call}
use swap_buffer_queue.Synchronized.WakerList.{
  WakerList, Pc, idle, adding, pushing, loaded, exchanged, draining, Move, System, pick, Reach,
  fresh, later,
}

-- With the mutex.
abbrev pub owns : {W T : Type 0} → Pc W T → Bool
owns (adding _) = true
owns (pushing _) = true
owns draining = true
owns _ = false

-- About to push a waker.
abbrev pushes : {W T : Type 0} → Pc W T → Bool
pushes (pushing _) = true
pushes _ = false

-- Bound to call every waker in the list.
abbrev pub drains : {W T : Type 0} → Pc W T → Bool
drains exchanged = true
drains draining = true
drains _ = false

module _ {W T : Type 0} where
  abbrev Waits : List (Waker W T) → (ℕ → Pc W T) → Type 0
  Waits wakers pc = (wakers ≢ []) ⊎ ((j : ℕ) × (pushes (pc j) ≡ true))

  abbrev pub Heard : Bool → (ℕ → Pc W T) → Type 0
  Heard non_empty pc = (non_empty ≡ true) ⊎ ((j : ℕ) × (drains (pc j) ≡ true))

  pushes-owns : (p : Pc W T) → pushes p ≡ true → owns p ≡ true
  pushes-owns (pushing _) e = refl
  pushes-owns _ e = absurd (cc e)

  record Inv (m : WakerList W T) (pc : ℕ → Pc W T) (owner : Option ℕ) : Type 0 where
    unlocked : m.locked ≡ false → owner ≡ none
    sole : (j : ℕ) → owns (pc j) ≡ true → owner ≡ some j
    heard : Waits m.wakers pc → Heard m.non_empty pc

  module _ (pc : ℕ → Pc W T) (i : ℕ) (p' : Pc W T) where
    keep-Heard : (b : Bool) → drains (pc i) ≡ false → Heard b pc → Heard b (update pc i p')
    keep-Heard b quiet (inl e) = inl e
    keep-Heard b quiet (inr (j, e)) = elim (Bool-cases (i == j)) [
      | inl same ↦
          let here : i ≡ j = ground (arith, same) in cc (ap (λ a. drains (pc a)) here, quiet, e)
      | inr ne ↦ inr (j, rw ne e)
    ]

    keep-Waits :
        (wakers : List (Waker W T))
        → pushes p' ≡ false
        → Waits wakers (update pc i p')
        → Waits wakers pc
    keep-Waits wakers quiet (inl some_there) = inl some_there
    keep-Waits wakers quiet (inr (j, e)) = elim (Bool-cases (i == j)) [
      | inl same ↦ let here : update pc i p' j ≡ p' = rw same in cc (ap pushes here, quiet, e)
      | inr ne ↦ let there : update pc i p' j ≡ pc j = rw ne in inr (j, ap pushes (sym there) ∙ e)
    ]

    mine-Heard : (b : Bool) → drains p' ≡ true → Heard b (update pc i p')
    mine-Heard b e = inr (i, rw (update_self pc i p') e)

  module _ {m : WakerList W T} {pc : ℕ → Pc W T} {owner : Option ℕ} (inv : Inv m pc owner)
      (i : ℕ) where
    abbrev After : WakerList W T → Pc W T → Type 0
    After m' p' = (owner' : Option ℕ) × Inv m' (update pc i p') owner'

    is_locked : owner ≡ some i → m.locked ≡ true
    is_locked is_mine = elim (Bool-cases m.locked) [
      | inl e ↦ e
      | inr ne ↦ let free : owner ≡ none = inv.unlocked ne in cc (free, is_mine)
    ]

    -- The thread has the mutex afterwards.
    lock-After :
        (m' : WakerList W T) (p' : Pc W T)
        → (owner ≡ none) ⊎ (owner ≡ some i)
        → m'.locked ≡ true
        → (Waits m'.wakers (update pc i p') → Heard m'.non_empty (update pc i p'))
        → After m' p'
    lock-After m' p' free_or_mine locked heard' = (
      some i,
      record {
        unlocked = λ e. cc (e, locked);
        sole = sole_mine owns pc i p' owner inv.sole free_or_mine;
        heard = heard';
      },
    )

    -- The thread gives the mutex back.
    unlock-After :
        (m' : WakerList W T) (p' : Pc W T)
        → owner ≡ some i
        → owns p' ≡ false
        → (Waits m'.wakers (update pc i p') → Heard m'.non_empty (update pc i p'))
        → After m' p'
    unlock-After m' p' is_mine free heard' = (
      none,
      record {
        unlocked = λ e. refl;
        sole = sole_none owns pc i p' owner inv.sole is_mine free;
        heard = heard';
      },
    )

    -- The thread does not use the mutex.
    quiet-After :
        (m' : WakerList W T) (p' : Pc W T)
        → m'.locked ≡ m.locked
        → owns p' ≡ false
        → (Waits m'.wakers (update pc i p') → Heard m'.non_empty (update pc i p'))
        → After m' p'
    quiet-After m' p' same free heard' = (
      owner,
      record {
        unlocked = λ e. inv.unlocked (sym same ∙ e);
        sole = λ j held. elim (Bool-cases (i == j)) [
          | inl e ↦ let here : update pc i p' j ≡ p' = rw e in cc (ap owns here)
          | inr ne ↦
              let there : update pc i p' j ≡ pc j = rw ne in inv.sole j (ap owns (sym there) ∙ held)
        ];
        heard = heard';
      },
    )

    -- Where nothing changes that the flag is about.
    same-Heard :
        (p' : Pc W T)
        → drains (pc i) ≡ false
        → pushes p' ≡ false
        → Waits m.wakers (update pc i p')
        → Heard m.non_empty (update pc i p')
    same-Heard p' quiet quiet' waits =
        keep-Heard pc i p' m.non_empty quiet (inv.heard (keep-Waits pc i p' m.wakers quiet' waits))

    -- The mutex is held by the thread that drains, so no thread is about to push.
    drained : pc i ≡ draining → m.wakers ≡ [] → ¬ Waits m.wakers (update pc i idle)
    drained at void waits = elim (keep-Waits pc i idle m.wakers refl waits) [
      | inl some_there ↦ some_there void
      | inr (j, e) ↦
          let is_mine : owner ≡ some i = inv.sole i (ap owns at) in
          let theirs : owner ≡ some j = inv.sole j (pushes-owns (pc j) e) in
          let same : i ≡ j = cc (is_mine, theirs) in
          cc (ap (λ a. pushes (pc a)) same, ap pushes at, e)
    ]

    Move-After :
        {current : T} {p p' : Pc W T} {c : Option (Call W T)} {m' : WakerList W T}
        → pc i ≡ p
        → Move current m p c m' p'
        → After m' p'
    Move-After {p' = p'} at (Move.register_lock cx e) =
        lock-After _ p' (inl (inv.unlocked e)) refl (same-Heard p' (ap drains at) refl)
    Move-After at (Move.register_first {waker = w} e) =
        lock-After (record m { non_empty = true }) (pushing w) (inr (inv.sole i (ap owns at)))
          (is_locked (inv.sole i (ap owns at))) (λ waits. inl refl)
    Move-After at (Move.register_next {waker = w} e) =
        lock-After m (pushing w) (inr (inv.sole i (ap owns at)))
          (is_locked (inv.sole i (ap owns at)))
          (λ waits. keep-Heard pc i (pushing w) m.non_empty (ap drains at) (inv.heard (inl e)))
    Move-After at (Move.register_push {waker = w}) =
        unlock-After _ idle (inv.sole i (ap owns at)) refl (λ waits.
          keep-Heard pc i idle m.non_empty (ap drains at) (inv.heard (inr (i, ap pushes at))))
    Move-After at (Move.wake_none e) =
        quiet-After m idle refl refl (same-Heard idle (ap drains at) refl)
    Move-After at (Move.wake_load e) =
        quiet-After m loaded refl refl (same-Heard loaded (ap drains at) refl)
    Move-After at (Move.wake_late e) =
        quiet-After m idle refl refl (same-Heard idle (ap drains at) refl)
    Move-After at (Move.wake_exchange e) =
        quiet-After _ exchanged refl refl (λ waits. mine-Heard pc i exchanged false refl)
    Move-After at (Move.wake_lock e) =
        lock-After _ draining (inl (inv.unlocked e)) refl
          (λ waits. mine-Heard pc i draining m.non_empty refl)
    Move-After at (Move.wake_call e) =
        lock-After _ draining (inr (inv.sole i (ap owns at))) (is_locked (inv.sole i (ap owns at)))
          (λ waits. mine-Heard pc i draining m.non_empty refl)
    Move-After at (Move.wake_unlock e) =
        unlock-After _ idle (inv.sole i (ap owns at)) refl (λ waits. absurd (drained at e waits))

  Reach-Inv :
      {handle : ℕ → T} {s : System W T} → Reach handle s → (owner : Option ℕ) × Inv s.mem s.pc owner
  Reach-Inv fresh = (
    none,
    record {
      unlocked = λ e. refl;
      sole = λ j held. absurd (cc held);
      heard = λ waits. elim waits [
        | inl some_there ↦ absurd (some_there refl)
        | inr (j, e) ↦ absurd (cc e)
      ];
    },
  )
  Reach-Inv (later before (pick i move)) =
      let (owner, inv) = Reach-Inv before in Move-After inv i refl move

  module _ {handle : ℕ → T} {s : System W T} (reach : Reach handle s) where
    -- In a state of a `WakerList` that threads can reach in any order of their steps, when there is a
    -- waker in the list, the flag says so, or some thread has taken the flag and is bound to call
    -- every waker of the list.
    pub never_stranded : s.mem.wakers ≢ [] → Heard s.mem.non_empty s.pc
    never_stranded some_there = let (owner, inv) = Reach-Inv reach in inv.heard (inl some_there)
