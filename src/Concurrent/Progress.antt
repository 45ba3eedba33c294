-- ===== src/Concurrent/Progress.antt =====
-- Runs of the threads that have something in flight, from a state where another one spins.
use swap_buffer_queue.Prelude.{
  ℕ, zero, suc, ◌+◌, ◌-◌, ◌^◌, ◌≤◌, ◌<◌, ◌≡◌, ◌≢◌, refl, sym, ap, subst, ◌∙◌, inl, inr, true, none,
  some, arith, ◌==◌, Bool-cases,
}
use swap_buffer_queue.Word.Enqueuing as Enqueuing
use swap_buffer_queue.Queue.Repr.{max_capacity}
use swap_buffer_queue.Threads.{update, update_self, update_other, each-update}
use swap_buffer_queue.Concurrent.{
  Shared, Pc, idle, inserting, inserted, panicked, spinning, holding, Move, System, Step, pick,
  Reach, later, mark, reserved_from,
}
use swap_buffer_queue.Concurrent.Inv.{Slot, slot_of, slot, in_flight, Within}
use swap_buffer_queue.Concurrent.Inv.Steps.{Reach-Inv}
use swap_buffer_queue.Concurrent.Safety.{spin_ends}

-- Steps one after another.
pub data Steps (capacity sizes : ℕ → ℕ) (n : ℕ) (s : System) : System → Type 0 where
  here : Steps capacity sizes n s s
  next :
      {t u : System}
      → Steps capacity sizes n s t
      → Step capacity sizes n t u
      → Steps capacity sizes n s u

-- Threads that have nothing in flight stay where they are.
abbrev Keeps : (ℕ → ℕ) → System → System → Type 0
Keeps capacity s t = (k : ℕ) → slot capacity (s.pc k) ≡ none → t.pc k ≡ s.pc k

-- No insertion has panicked.
abbrev pub Sound : Pc → Type 0
Sound (panicked size enq) = ⊥
Sound _ = Unit

abbrev pub Calm : System → Type 0
Calm s = (j : ℕ) → Sound (s.pc j)

module _ {capacity sizes : ℕ → ℕ} {n : ℕ} where
  run_on :
      {s t u : System}
      → Steps capacity sizes n s t
      → Steps capacity sizes n t u
      → Steps capacity sizes n s u
  run_on before here = before
  run_on before (next after step) = next (run_on before after) step

  Reach-Steps :
      {s t : System}
      → Reach capacity sizes n s
      → Steps capacity sizes n s t
      → Reach capacity sizes n t
  Reach-Steps reach here = reach
  Reach-Steps reach (next before step) = later (Reach-Steps reach before) step

  -- The step of a thread that is known to stand somewhere.
  own_turn :
      (s : System) (j : ℕ) (p : Pc) {m : Shared} {p' : Pc}
      → j < n
      → s.pc j ≡ p
      → Move capacity sizes s.mem p m p'
      → Step capacity sizes n s (record { mem = m; pc = update s.pc j p' })
  own_turn s j p {m = m} {p' = p'} lt at move =
      pick j lt (subst (λ x. Move capacity sizes s.mem x m p') (sym at) move)

  acknowledges :
      (s : System) (j size enq : ℕ)
      → j < n
      → s.pc j ≡ inserted size enq
      → Calm s
      → (t : System) × Steps capacity sizes n s t
        × (slot capacity (t.pc j) ≡ none)
        × Keeps capacity s t
        × Calm t
  acknowledges s j size enq lt at calm = (
    _,
    next here (own_turn s j (inserted size enq) lt at Move.acknowledge),
    ap (slot capacity) (update_self s.pc j idle),
    λ k quiet.
        update_other s.pc j k idle
          (λ same. cc (ap (λ a. slot capacity (s.pc a)) same, ap (slot capacity) at, quiet)),
    each-update (λ k p. Sound p) s.pc j idle tt (λ k other. calm k),
  )

  inserts :
      (s : System) (j size enq : ℕ)
      → j < n
      → s.pc j ≡ inserting size enq
      → Calm s
      → (t : System) × Steps capacity sizes n s t
        × (slot capacity (t.pc j) ≡ none)
        × Keeps capacity s t
        × Calm t
  inserts s j size enq lt at calm =
      let written : System = record {
        mem = record s.mem {
          initialised =
              mark s.mem.initialised (Enqueuing.buffer_index enq) (reserved_from capacity enq) size
                true;
        };
        pc = update s.pc j (inserted size enq);
      } in
      let step : Step capacity sizes n s written =
        own_turn s j (inserting size enq) lt at Move.insert in
      let other : (k : ℕ) → slot capacity (s.pc k) ≡ none → written.pc k ≡ s.pc k = λ k quiet.
        update_other s.pc j k (inserted size enq)
          (λ same. cc (ap (λ a. slot capacity (s.pc a)) same, ap (slot capacity) at, quiet)) in
      let (t, steps, done_with, keeps, calm') =
        acknowledges written j size enq lt (update_self s.pc j (inserted size enq))
          (each-update (λ k p. Sound p) s.pc j (inserted size enq) tt (λ k other. calm k)) in
      (
        t,
        run_on (next here step) steps,
        done_with,
        λ k quiet. keeps k (ap (slot capacity) (other k quiet) ∙ quiet) ∙ other k quiet,
        calm',
      )

  -- A thread can go on until it has nothing in flight, if no insertion has panicked.
  finish_from :
      (s : System) (j : ℕ) (p : Pc)
      → j < n
      → s.pc j ≡ p
      → Calm s
      → (t : System) × Steps capacity sizes n s t
        × (slot capacity (t.pc j) ≡ none)
        × Keeps capacity s t
        × Calm t
  finish_from s j (inserting size enq) lt at calm = inserts s j size enq lt at calm
  finish_from s j (inserted size enq) lt at calm = acknowledges s j size enq lt at calm
  finish_from s j (panicked size enq) lt at calm = absurd (subst Sound at (calm j))
  finish_from s j _ lt at calm = (s, here, ap (slot capacity) at, (λ k quiet. refl), calm)

  -- So can the first threads, one after another.
  finish_all :
      (s : System) (threads : ℕ)
      → threads ≤ n
      → Calm s
      → (t : System) × Steps capacity sizes n s t
        × ((j : ℕ) → j < threads → slot capacity (t.pc j) ≡ none)
        × Keeps capacity s t
        × Calm t
  finish_all s zero le calm =
      (s, here, (λ j lt. absurd (omega (arith, lt))), (λ k quiet. refl), calm)
  finish_all s (suc threads) le calm =
      let (t, steps, finished, keeps, calm') = finish_all s threads (omega (arith, le)) calm in
      let (u, more, last, keeps', calm'') =
        finish_from t threads (t.pc threads) (omega (arith, le)) refl calm' in
      (
        u,
        run_on steps more,
        λ j lt. elim (Bool-cases (j == threads)) [
          | inl e ↦
              let same : j ≡ threads = ground (arith, e) in
              ap (λ a. slot capacity (u.pc a)) same ∙ last
          | inr ne ↦
              let before : slot capacity (t.pc j) ≡ none = finished j (ground (arith, ne, lt)) in
              ap (slot capacity) (keeps' j before) ∙ before
        ],
        (λ k quiet. keeps' k (ap (slot capacity) (keeps k quiet) ∙ quiet) ∙ keeps k quiet),
        calm'',
      )

module _ {capacity sizes : ℕ → ℕ} (small : (b : ℕ) → capacity b < max_capacity)
    (sizes_small : (v : ℕ) → sizes v < 2 ^ 63) {n : ℕ} where
  -- Only the first `n` threads have anything in flight.
  slot_thread :
      {s : System}
      → Reach capacity sizes n s
      → (j : ℕ) (x : Slot) → slot capacity (s.pc j) ≡ some x
      → j < n
  slot_thread {s = s} reach j x at =
      let (g, inv) = Reach-Inv small sizes_small reach in
      let within : Within n j (λ b. s.mem.buffers_length b + in_flight capacity n s.pc b) (some x) =
        subst (Within n j (λ b. s.mem.buffers_length b + in_flight capacity n s.pc b)) at
          (inv.memory.within j) in
      within.0

  no_slot_left :
      {s : System}
      → Reach capacity sizes n s
      → ((j : ℕ) → j < n → slot capacity (s.pc j) ≡ none)
      → (j : ℕ) (x : Slot) → slot capacity (s.pc j) ≢ some x
  no_slot_left reach finished j x at = cc (at, finished j (slot_thread reach j x at))

  -- With buffers of capacities below `2 ^ 62 - 1` and values of sizes below `2 ^ 63`, from every state
  -- that threads can reach from a new queue in any order of their steps, where no insertion has
  -- panicked and a thread spins for the items of a buffer, further steps lead to a state where it
  -- holds a slice of that buffer with the length that it waits for.
  pub spin_reaches :
      (s : System) (i index len : ℕ)
      → Reach capacity sizes n s
      → i < n
      → Calm s
      → s.pc i ≡ spinning index len
      → (t : System) × (from to : ℕ) × Steps capacity sizes n s t
        × (t.pc i ≡ holding index from to)
        × (from + len ≡ to)
  spin_reaches s i index len reach lt calm at =
      let (t, steps, finished, keeps, _) =
        finish_all {capacity = capacity} {sizes = sizes} {n = n} s n (omega arith) calm in
      let reach' : Reach capacity sizes n t = Reach-Steps reach steps in
      let still : t.pc i ≡ spinning index len = keeps i (ap (slot capacity) at) ∙ at in
      let enough : len ≤ t.mem.buffers_length index =
        spin_ends small sizes_small reach' i index len still (λ j size enq there.
          absurd (no_slot_left reach' finished j (slot_of capacity size enq) there)) in
      (
        _,
        t.mem.buffers_length index - len,
        t.mem.buffers_length index,
        next steps (own_turn t i (spinning index len) lt still (Move.take enough)),
        update_self t.pc i
            (holding index (t.mem.buffers_length index - len) (t.mem.buffers_length index)),
        omega (arith, enough),
      )
