-- ===== src/Queue.antt =====
-- src/queue.rs: `Queue`, its constructors and its accessors. A queue is a state that one caller
-- works on at a time: `Queue.Enqueue` and `Queue.Dequeue` hold the operations.
pub mod Enqueue
pub mod Dequeue
pub mod Spec
pub mod Repr
pub mod Control
pub mod Resizing
use swap_buffer_queue.Prelude.{ℕ, ◌+◌, ◌-◌, Bool, Option, none, some, ◌==◌, if◌then◌else◌}
use swap_buffer_queue.Prelude.Run.{Cmd, Run, zoom}
use swap_buffer_queue.Two.{Two, at, put}
use swap_buffer_queue.Word.Enqueuing
use swap_buffer_queue.Word.Dequeuing
use swap_buffer_queue.Buffer.{Buffer, Resize}

-- `B` is the buffer, `N` the notifier.
pub record Queue (B N : Type 0) : Type 0 where
  pub enqueuing_capacity : ℕ
  pub dequeuing_length : ℕ
  pub buffers : Two B
  pub buffers_length : Two ℕ
  pub capacity : ℕ
  pub notify : N

module _ {B S N : Type 0} (buf : Buffer B S) (default_notify : N) where
  -- The struct that both constructors build; `none` is a failed assertion.
  unfoldable pub build : Two B → ℕ → Option (Queue B N)
  build buffers capacity =
      if Enqueuing.check_overflow capacity
      then elim (Enqueuing.new 0 capacity) [
        | none ↦ none
        | some enqueuing ↦ some (record {
          enqueuing_capacity = enqueuing;
          dequeuing_length = Dequeuing.new 1 0;
          buffers = buffers;
          buffers_length = record { first = 0; second = 0 };
          capacity = capacity;
          notify = default_notify;
        })
      ]
      else none

  unfoldable pub new : Option (Queue B N)
  unfolding build
  new = build (record { first = buf.default; second = buf.default }) (buf.capacity buf.default)

  unfoldable pub with_capacity : Resize B → ℕ → Option (Queue B N)
  unfolding build
  with_capacity resizable capacity =
      build
        (record {
          first = resizable.resize capacity buf.default;
          second = resizable.resize capacity buf.default;
        })
        capacity

module _ {B N : Type 0} where
  -- `saturating_sub` is the subtraction of the natural numbers.
  unfoldable pub len : Queue B N → ℕ
  len q = q.capacity - Enqueuing.remaining_capacity q.enqueuing_capacity

  unfoldable pub is_empty : Queue B N → Bool
  unfolding len
  is_empty q = len q == 0

  unfoldable pub is_closed : Queue B N → Bool
  is_closed q = Enqueuing.is_closed q.enqueuing_capacity

  unfoldable pub reopen : Queue B N → Queue B N
  reopen q = record q { enqueuing_capacity = Enqueuing.reopen q.enqueuing_capacity }

  -- Code on one of the two buffers.
  abbrev pub on_buffer {κ} : {A : Type κ} → ℕ → Cmd B A → Cmd (Queue B N) A
  on_buffer index =
      zoom (λ q. at index q.buffers) (λ b q. record q { buffers = put index b q.buffers })
