-- ===== src/Concurrent/Inv/Quiet.antt =====
-- A step of one thread that keeps what it has in flight: what the other fields of the invariant need
-- to know of the threads.
use swap_buffer_queue.Prelude.{
  ℕ, ◌+◌, ◌-◌, ◌<◌, ◌≡◌, ◌≢◌, refl, sym, ap, subst, ◌∙◌, inl, inr, Bool, true, false, Option, none,
  some, arith, ◌==◌, Bool-cases,
}
use mathlib.Core.Path.{fun_ext}
use swap_buffer_queue.Threads.{update, update_self, update_other, sum-change}
use swap_buffer_queue.Concurrent.{Shared, Pc}
use swap_buffer_queue.Concurrent.Inv.{
  slot, unwritten, slot_weight, weight, in_flight, owns, Within, Apart, Writes, Covered, Ghost,
  Owned, Locked, Memory,
}

pub Owned-owns :
    (other flight low waiting : ℕ) (p : Pc) → Owned other flight low waiting p → owns p ≡ true
Owned-owns other flight low waiting (Pc.dequeuing _) o = refl
Owned-owns other flight low waiting (Pc.looking _ _) o = refl
Owned-owns other flight low waiting (Pc.swapping _ _) o = refl
Owned-owns other flight low waiting (Pc.spinning _ _) o = refl
Owned-owns other flight low waiting (Pc.holding _ _ _) o = refl
Owned-owns other flight low waiting (Pc.cleared _) o = refl
Owned-owns other flight low waiting (Pc.emptied _) o = refl
Owned-owns other flight low waiting _ o = absurd o

module _ (capacity : ℕ → ℕ) (n : ℕ) (pc : ℕ → Pc) (i : ℕ) (p' : Pc) where
  pub flight-update :
      i < n
      → (b : ℕ)
      → in_flight capacity n (update pc i p') b + weight capacity b (pc i)
        ≡ in_flight capacity n pc b + weight capacity b p'
  flight-update small b =
      subst
        (λ x.
          in_flight capacity n (update pc i p') b + weight capacity b (pc i)
          ≡ in_flight capacity n pc b + weight capacity b x)
        (update_self pc i p')
        (sum-change (λ j. weight capacity b (pc j)) (λ j. weight capacity b (update pc i p' j)) i
          (λ j other. ap (weight capacity b) (update_other pc i j p' other)) n small)

  pub flight_same :
      i < n
      → slot capacity (pc i) ≡ slot capacity p'
      → in_flight capacity n (update pc i p') ≡ in_flight capacity n pc
  flight_same small same =
      fun_ext (λ b. omega (arith, flight-update small b, ap (slot_weight b) same))

  pub flight_same_at :
      i < n
      → slot capacity (pc i) ≡ slot capacity p'
      → (b : ℕ) → in_flight capacity n (update pc i p') b ≡ in_flight capacity n pc b
  flight_same_at small same b = ap (λ f. f b) (flight_same small same)

  pub quiet-Within :
      (used : ℕ → ℕ)
      → slot capacity (pc i) ≡ slot capacity p'
      → ((j : ℕ) → Within n j used (slot capacity (pc j)))
      → (j : ℕ) → Within n j used (slot capacity (update pc i p' j))
  quiet-Within used same old j = elim (Bool-cases (i == j)) [
    | inl e ↦
        let here : i ≡ j = ground (arith, e) in
        rw e (
          subst (λ k. Within n k used (slot capacity p')) here
            (subst (Within n i used) same (old i)))
    | inr ne ↦ rw ne (old j)
  ]

  quiet-slot :
      slot capacity (pc i) ≡ slot capacity p'
      → (j : ℕ) → slot capacity (update pc i p' j) ≡ slot capacity (pc j)
  quiet-slot same j = elim (Bool-cases (i == j)) [
    | inl e ↦
        let here : i ≡ j = ground (arith, e) in
        rw e (sym same ∙ ap (λ k. slot capacity (pc k)) here)
    | inr ne ↦ rw ne
  ]

  pub quiet-Apart :
      slot capacity (pc i) ≡ slot capacity p'
      → ((a b : ℕ) → a ≢ b → Apart (slot capacity (pc a)) (slot capacity (pc b)))
      → (a b : ℕ) → a ≢ b
      → Apart (slot capacity (update pc i p' a)) (slot capacity (update pc i p' b))
  quiet-Apart same old a b other = rw (quiet-slot same a, quiet-slot same b) (old a b other)

  quiet-Writes :
      (b k : ℕ)
      → unwritten capacity (pc i) ≡ none
      → (j : ℕ) → Writes (unwritten capacity (pc j)) b k
      → Writes (unwritten capacity (update pc i p' j)) b k
  quiet-Writes b k quiet j writes = elim (Bool-cases (i == j)) [
    | inl e ↦
        let here : j ≡ i = ground (arith, e) in
        absurd (subst (λ x. Writes x b k) (ap (λ a. unwritten capacity (pc a)) here ∙ quiet) writes)
    | inr ne ↦ rw ne writes
  ]

  -- The cells that a thread is about to write are still so if the thread that moves writes none.
  pub quiet-Covered :
      (cells : ℕ → ℕ → Bool) (b lo hi : ℕ)
      → unwritten capacity (pc i) ≡ none
      → Covered capacity cells pc b lo hi
      → Covered capacity cells (update pc i p') b lo hi
  quiet-Covered cells b lo hi quiet old k above below = elim (old k above below) [
    | inl w ↦ inl w
    | inr (j, writes) ↦ inr (j, quiet-Writes b k quiet j writes)
  ]

  -- The owner of the lock, if it is another thread, stands where it stood.
  pub quiet-Locked :
      (other flight low waiting word : ℕ) (owner : Option ℕ)
      → owns (pc i) ≡ false
      → Locked other flight low waiting word pc owner
      → Locked other flight low waiting word (update pc i p') owner
  quiet-Locked other flight low waiting word none free locked = locked
  quiet-Locked other flight low waiting word (some o) free locked = (
    locked.0,
    elim (Bool-cases (i == o)) [
      | inl e ↦
          let here : o ≡ i = ground (arith, e) in
          let held : owns (pc i) ≡ true =
            ap (λ a. owns (pc a)) (sym here)
            ∙ Owned-owns other flight low waiting (pc o) locked.1 in
          cc
      | inr ne ↦ rw ne locked.1
    ],
  )

  -- A step that changes no range and no memory.
  pub quiet-Memory :
      {m : Shared} {g : Ghost}
      → i < n
      → slot capacity (pc i) ≡ slot capacity p'
      → unwritten capacity (pc i) ≡ none
      → Memory capacity n m pc (in_flight capacity n pc) g
      → Memory capacity n m (update pc i p') (in_flight capacity n (update pc i p')) g
  quiet-Memory {m = m} {g = g} small same quiet old =
      subst (λ f. Memory capacity n m (update pc i p') f g) (sym (flight_same small same))
        (record {
          index_small = old.index_small;
          left = old.left;
          word = old.word;
          reserved = old.reserved;
          expected = old.expected;
          bounded = old.bounded;
          settled = old.settled;
          within =
              quiet-Within (λ b. m.buffers_length b + in_flight capacity n pc b) same old.within;
          apart = quiet-Apart same old.apart;
          filled =
              quiet-Covered m.initialised g.index 0
                (m.buffers_length g.index + in_flight capacity n pc g.index) quiet old.filled;
          ready =
              quiet-Covered m.initialised (1 - g.index) g.low (g.low + g.waiting) quiet old.ready;
        })
