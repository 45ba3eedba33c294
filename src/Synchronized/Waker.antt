-- ===== src/Synchronized/Waker.antt =====
-- src/synchronized/waker.rs. What the standard library does is a parameter: `W` is its task waker and
-- `T` its thread handle, and a call of one of them is recorded.
use swap_buffer_queue.Prelude.{Bool, false, Option, none, some}

pub data Waker (W T : Type 0) : Type 0 where
  async : W → Waker W T
  sync : T → Waker W T

-- The calls `wake` of a task waker and `unpark` of a thread.
pub data Call (W T : Type 0) : Type 0 where
  wake_task : W → Call W T
  unpark : T → Call W T

module _ {W T : Type 0} where
  -- `cx` is the waker of the context, `current` the handle of the calling thread.
  abbrev pub new : (current : T) → (cx : Option W) → Waker W T
  new current none = sync current
  new current (some cx) = async cx

  abbrev pub will_wake : (W → W → Bool) → Waker W T → (cx : Option W) → Bool
  will_wake same_task (async w) (some cx) = same_task w cx
  will_wake same_task _ _ = false

  abbrev pub wake : Waker W T → Call W T
  wake (async waker) = wake_task waker
  wake (sync thread) = unpark thread
