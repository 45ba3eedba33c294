-- ===== src/Synchronized/AtomicWaker.antt =====
-- src/synchronized/atomic_waker.rs: the steps of `register` and `wake`, one access of the state or of
-- the cell at a time, by several threads in any order. The memory is sequentially consistent.
pub mod Inv
pub mod Safety
use Prim.Native.Nat.{bit_and, bit_or}
use swap_buffer_queue.Prelude.{
  ℕ, ◌<◌, ◌≡◌, ◌≢◌, Bool, true, false, Option, none, some, if◌then◌else◌,
}
use swap_buffer_queue.Word.{bit_not}
use swap_buffer_queue.Threads.{update}
use swap_buffer_queue.Synchronized.Waker.{Waker, Call, wake_task, unpark, will_wake}
use swap_buffer_queue.Synchronized.Waker as Waker_of

abbrev pub waiting : ℕ
waiting = 0

abbrev pub registering : ℕ
registering = 1

abbrev pub waking : ℕ
waking = 2

pub record AtomicWaker (W T : Type 0) : Type 0 where
  pub state : ℕ
  pub waker : Option (Waker W T)

module _ {W T : Type 0} where
  abbrev pub new : AtomicWaker W T
  new = record { state = waiting; waker = none }

  -- What is in the cell after `register` has looked at it.
  abbrev pub stored_waker :
      (same_task : W → W → Bool)
      → (current : T) → (cx : Option W) → Option (Waker W T)
      → Option (Waker W T)
  stored_waker same_task current cx none = some (Waker_of.new current cx)
  stored_waker same_task current cx (some old_waker) =
      if will_wake same_task old_waker cx then some old_waker else some (Waker_of.new current cx)

  -- `cx.waker().wake_by_ref()` or `thread::current().unpark()`
  abbrev pub wake_current : (current : T) → (cx : Option W) → Call W T
  wake_current current none = unpark current
  wake_current current (some cx) = wake_task cx

-- Where a thread stands.
pub data Pc (W T : Type 0) : Type 0 where
  idle : Pc W T
  -- `register`: before it looks at the cell, and before it gives the state back
  storing : (cx : Option W) → Pc W T
  stored : Pc W T
  -- it could not: before it takes the waker out, and before it swaps the state
  taking_back : Pc W T
  handing_back : Waker W T → Pc W T
  -- `wake`: before it takes the waker out, and before it clears its bit
  taking : Pc W T
  clearing : Option (Waker W T) → Pc W T
  -- before the call of a waker
  calling : Waker W T → Pc W T
  -- `unwrap` of an empty cell
  panicked : Pc W T

abbrev pub after_clear : {W T : Type 0} → Option (Waker W T) → Pc W T
after_clear none = idle
after_clear (some waker) = calling waker

-- One step of the thread with the handle `current`, and the call that it makes.
pub data Move {W T : Type 0} (same_task : W → W → Bool) (current : T) (m : AtomicWaker W T)
    : Pc W T → Option (Call W T) → AtomicWaker W T → Pc W T → Type 0 where
  register_start :
      {cx : Option W}
      → m.state ≡ waiting
      → Move same_task current m idle none (record m { state = registering }) (storing cx)
  register_woken :
      (cx : Option W)
      → m.state ≡ waking
      → Move same_task current m idle (some (wake_current current cx)) m idle
  register_busy : m.state ≢ waiting → m.state ≢ waking → Move same_task current m idle none m idle
  store :
      {cx : Option W}
      → Move same_task current m
          (storing cx)
          none
          (record m { waker = stored_waker same_task current cx m.waker })
          stored
  give_back :
      m.state ≡ registering
      → Move same_task current m stored none (record m { state = waiting }) idle
  give_back_fails : m.state ≢ registering → Move same_task current m stored none m taking_back
  take_back :
      {waker : Waker W T}
      → m.waker ≡ some waker
      → Move same_task current m taking_back none (record m { waker = none }) (handing_back waker)
  take_back_panics : m.waker ≡ none → Move same_task current m taking_back none m panicked
  hand_back :
      {waker : Waker W T}
      → Move same_task current m
          (handing_back waker)
          none
          (record m { state = waiting })
          (calling waker)
  call :
      {waker : Waker W T}
      → Move same_task current m (calling waker) (some (Waker_of.wake waker)) m idle
  wake_start :
      m.state ≡ waiting
      → Move same_task current m idle none (record m { state = bit_or m.state waking }) taking
  wake_busy :
      m.state ≢ waiting
      → Move same_task current m idle none (record m { state = bit_or m.state waking }) idle
  take_waker : Move same_task current m taking none (record m { waker = none }) (clearing m.waker)
  clear_waking :
      {waker : Option (Waker W T)}
      → Move same_task current m
          (clearing waker)
          none
          (record m { state = bit_and m.state (bit_not waking) })
          (after_clear waker)

pub record System (W T : Type 0) : Type 0 where
  pub mem : AtomicWaker W T
  pub pc : ℕ → Pc W T

-- `handle` is that of each thread.
pub data Step {W T : Type 0} (same_task : W → W → Bool) (handle : ℕ → T) (s : System W T)
    : System W T → Type 0 where
  pick :
      (i : ℕ) {c : Option (Call W T)} {m : AtomicWaker W T} {p : Pc W T}
      → Move same_task (handle i) s.mem (s.pc i) c m p
      → Step same_task handle s (record { mem = m; pc = update s.pc i p })

-- The states that threads can reach from a new `AtomicWaker`.
pub data Reach {W T : Type 0} (same_task : W → W → Bool) (handle : ℕ → T)
    : System W T → Type 0 where
  fresh : Reach same_task handle (record { mem = new; pc = λ _. idle })
  later :
      {s t : System W T}
      → Reach same_task handle s
      → Step same_task handle s t
      → Reach same_task handle t
