-- ===== src/Concurrent/Inv.antt =====
-- What holds between any two steps: who holds the lock, how much of each buffer is reserved, and
-- which cells are initialised.
pub mod Quiet
pub mod Enqueue
pub mod Reserve
pub mod Insert
pub mod Lock
pub mod Swap
pub mod Release
pub mod After
pub mod Steps
use swap_buffer_queue.Prelude.{
  ℕ, ◌+◌, ◌-◌, ◌^◌, ◌≤◌, ◌<◌, ◌≡◌, ◌≢◌, ◌⊎◌, Bool, true, false, Option, none, some, ◌==◌,
  if◌then◌else◌,
}
use swap_buffer_queue.Word.{dequeuing_locked}
use swap_buffer_queue.Word.Enqueuing
use swap_buffer_queue.Word.Enqueuing.Laws as Enqueuing_laws
use swap_buffer_queue.Word.Dequeuing.Laws as Dequeuing_laws
use swap_buffer_queue.Queue.Repr.{max_capacity}
use swap_buffer_queue.Threads.{sum_of}
use swap_buffer_queue.Concurrent.{
  Shared, Pc, idle, inserting, inserted, panicked, dequeuing, looking, swapping, spinning, holding,
  cleared, emptied, reserved_from,
}

-- A reserved range of a buffer.
pub record Slot : Type 0 where
  pub buffer : ℕ
  pub from : ℕ
  pub size : ℕ

abbrev pub slot_of : (ℕ → ℕ) → (size enqueuing : ℕ) → Slot
slot_of capacity size enq = record {
  buffer = Enqueuing.buffer_index enq;
  from = reserved_from capacity enq;
  size = size;
}

-- The range that a thread has reserved and not acknowledged, and the one that it may not have written.
abbrev pub slot : (ℕ → ℕ) → Pc → Option Slot
slot capacity (inserting size enq) = some (slot_of capacity size enq)
slot capacity (inserted size enq) = some (slot_of capacity size enq)
slot capacity (panicked size enq) = some (slot_of capacity size enq)
slot capacity _ = none

abbrev pub unwritten : (ℕ → ℕ) → Pc → Option Slot
unwritten capacity (inserting size enq) = some (slot_of capacity size enq)
unwritten capacity (panicked size enq) = some (slot_of capacity size enq)
unwritten capacity _ = none

abbrev pub slot_weight : ℕ → Option Slot → ℕ
slot_weight b none = 0
slot_weight b (some x) = if x.buffer == b then x.size else 0

-- How much of a buffer is reserved and not acknowledged, and how much is reserved.
abbrev pub weight : (ℕ → ℕ) → ℕ → Pc → ℕ
weight capacity b p = slot_weight b (slot capacity p)

abbrev pub in_flight : (ℕ → ℕ) → ℕ → (ℕ → Pc) → ℕ → ℕ
in_flight capacity n pc b = sum_of (λ j. weight capacity b (pc j)) n

-- The lock of the dequeuing side is held from the swap of its word on.
abbrev pub owns : Pc → Bool
owns (dequeuing _) = true
owns (looking _ _) = true
owns (swapping _ _) = true
owns (spinning _ _) = true
owns (holding _ _ _) = true
owns (cleared _) = true
owns (emptied _) = true
owns _ = false

abbrev pub Within : (n j : ℕ) → (ℕ → ℕ) → Option Slot → Type 0
Within n j used none = Unit
Within n j used (some x) =
    (j < n) × (0 < x.size) × (x.buffer < 2) × (x.from + x.size ≤ used x.buffer)

abbrev pub Apart : Option Slot → Option Slot → Type 0
Apart (some x) (some y) =
    x.buffer ≡ y.buffer → (x.from + x.size ≤ y.from) ⊎ (y.from + y.size ≤ x.from)
Apart _ _ = Unit

abbrev pub Writes : Option Slot → (b k : ℕ) → Type 0
Writes none b k = ⊥
Writes (some x) b k = (x.buffer ≡ b) × (x.from ≤ k) × (k < x.from + x.size)

-- Every cell of the range is initialised, or some thread has reserved it and may not have written it.
abbrev pub Covered : (ℕ → ℕ) → (ℕ → ℕ → Bool) → (ℕ → Pc) → (b lo hi : ℕ) → Type 0
Covered capacity cells pc b lo hi =
    (k : ℕ)
    → lo ≤ k
    → k < hi
    → (cells b k ≡ true) ⊎ ((i : ℕ) × Writes (unwritten capacity (pc i)) b k)

-- What the words and the lengths say: `index` is the buffer that is enqueued into and `remaining` what
-- is left of it; in the other one `waiting` items from `low` on are to be dequeued. `owner` is the
-- thread that holds the lock.
pub record Ghost : Type 0 where
  pub index : ℕ
  pub remaining : ℕ
  pub shut : Bool
  pub low : ℕ
  pub waiting : ℕ
  pub owner : Option ℕ

-- What the owner knows, by where it stands; `flight` is what is in flight in its buffer.
abbrev pub Owned : (other flight low waiting : ℕ) → Pc → Type 0
Owned other flight low waiting (dequeuing word) =
    (word ≡ Dequeuing_laws.word_of other waiting) × (waiting ≡ 0 → low ≡ 0)
Owned other flight low waiting (looking word enq) =
    (word ≡ Dequeuing_laws.word_of other 0) × (waiting ≡ 0) × (low ≡ 0)
Owned other flight low waiting (swapping next enq) = (next ≡ other) × (waiting ≡ 0) × (low ≡ 0)
Owned other flight low waiting (spinning index len) =
    (index ≡ other) × (len ≡ waiting) × (0 < waiting)
Owned other flight low waiting (holding index start end) =
    (index ≡ other) × (start ≡ low) × (end ≡ low + waiting) × (flight ≡ 0)
Owned other flight low waiting (cleared index) = (index ≡ other) × (waiting ≡ 0) × (flight ≡ 0)
Owned other flight low waiting (emptied index) = (index ≡ other) × (waiting ≡ 0) × (low ≡ 0)
Owned other flight low waiting _ = ⊥

abbrev pub Locked : (other flight low waiting dequeuing_length : ℕ) → (ℕ → Pc) → Option ℕ → Type 0
Locked other flight low waiting word pc none =
    (word ≡ Dequeuing_laws.word_of other waiting) × (waiting ≡ 0 → low ≡ 0)
Locked other flight low waiting word pc (some i) =
    (word ≡ dequeuing_locked) × Owned other flight low waiting (pc i)

-- What holds of the memory and of the ranges; `flight` is what is in flight in each buffer.
pub record Memory (capacity : ℕ → ℕ) (n : ℕ) (m : Shared) (pc : ℕ → Pc) (flight : ℕ → ℕ) (g : Ghost)
    : Type 0 where
  pub index_small : g.index < 2
  pub left : g.remaining ≤ capacity g.index
  pub word : m.enqueuing_capacity ≡ Enqueuing_laws.word_of g.index g.remaining g.shut
  pub reserved : m.buffers_length g.index + flight g.index + g.remaining ≡ capacity g.index
  pub expected : g.low + g.waiting ≡ m.buffers_length (1 - g.index) + flight (1 - g.index)
  pub bounded : g.low + g.waiting ≤ capacity (1 - g.index)
  pub settled : 0 < g.low → flight (1 - g.index) ≡ 0
  pub within : (j : ℕ) → Within n j (λ b. m.buffers_length b + flight b) (slot capacity (pc j))
  pub apart : (i j : ℕ) → i ≢ j → Apart (slot capacity (pc i)) (slot capacity (pc j))
  pub filled :
      Covered capacity m.initialised pc g.index 0 (m.buffers_length g.index + flight g.index)
  pub ready : Covered capacity m.initialised pc (1 - g.index) g.low (g.low + g.waiting)

-- That, and what holds of the lock.
pub record Fields (capacity : ℕ → ℕ) (n : ℕ) (m : Shared) (pc : ℕ → Pc) (flight : ℕ → ℕ) (g : Ghost)
    : Type 0 where
  pub memory : Memory capacity n m pc flight g
  pub locked :
      Locked (1 - g.index) (flight (1 - g.index)) g.low g.waiting m.dequeuing_length pc g.owner
  pub sole : (j : ℕ) → owns (pc j) ≡ true → g.owner ≡ some j

abbrev pub Inv : (ℕ → ℕ) → ℕ → Shared → (ℕ → Pc) → Ghost → Type 0
Inv capacity n m pc g = Fields capacity n m pc (in_flight capacity n pc) g
