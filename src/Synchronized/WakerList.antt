-- ===== src/Synchronized/WakerList.antt =====
-- src/synchronized/waker_list.rs: the steps of `register`, `wake` and `wake_all`, one access of the
-- list, of its mutex or of the flag at a time, by several threads in any order. The memory is
-- sequentially consistent.
pub mod Safety
use swap_buffer_queue.Prelude.{
  ℕ, ◌≡◌, ◌≢◌, Bool, true, false, Option, none, some, List, [], ◌∷◌, ◌++◌, ◌==◌, if◌then◌else◌,
}
use swap_buffer_queue.Threads.{update}
use swap_buffer_queue.Synchronized.Waker.{Waker, Call}
use swap_buffer_queue.Synchronized.Waker as Waker_of

-- `locked` is the state of the mutex.
pub record WakerList (W T : Type 0) : Type 0 where
  pub wakers : List (Waker W T)
  pub locked : Bool
  pub non_empty : Bool

abbrev pub new : {W T : Type 0} → WakerList W T
new = record { wakers = []; locked = false; non_empty = false }

-- Where a thread stands.
pub data Pc (W T : Type 0) : Type 0 where
  idle : Pc W T
  -- `register`, with the mutex: before the test of the list, and before the push
  adding : Waker W T → Pc W T
  pushing : Waker W T → Pc W T
  -- `wake`: before the exchange of the flag, and before it locks the mutex
  loaded : Pc W T
  exchanged : Pc W T
  -- `wake_all`, with the mutex
  draining : Pc W T

-- One step of the thread with the handle `current`, and the call that it makes.
pub data Move {W T : Type 0} (current : T) (m : WakerList W T)
    : Pc W T → Option (Call W T) → WakerList W T → Pc W T → Type 0 where
  register_lock :
      (cx : Option W)
      → m.locked ≡ false
      → Move current m idle none (record m { locked = true }) (adding (Waker_of.new current cx))
  register_first :
      {waker : Waker W T}
      → m.wakers ≡ []
      → Move current m (adding waker) none (record m { non_empty = true }) (pushing waker)
  register_next :
      {waker : Waker W T} → m.wakers ≢ [] → Move current m (adding waker) none m (pushing waker)
  register_push :
      {waker : Waker W T}
      → Move current m
          (pushing waker)
          none
          (record m { wakers = m.wakers ++ (waker ∷ []); locked = false })
          idle
  wake_none : m.non_empty ≡ false → Move current m idle none m idle
  wake_load : m.non_empty ≡ true → Move current m idle none m loaded
  wake_late : m.non_empty ≡ false → Move current m loaded none m idle
  wake_exchange :
      m.non_empty ≡ true → Move current m loaded none (record m { non_empty = false }) exchanged
  wake_lock : m.locked ≡ false → Move current m exchanged none (record m { locked = true }) draining
  wake_call :
      {waker : Waker W T} {rest : List (Waker W T)}
      → m.wakers ≡ waker ∷ rest
      → Move current m draining (some (Waker_of.wake waker)) (record m { wakers = rest }) draining
  wake_unlock : m.wakers ≡ [] → Move current m draining none (record m { locked = false }) idle

pub record System (W T : Type 0) : Type 0 where
  pub mem : WakerList W T
  pub pc : ℕ → Pc W T

-- `handle` is that of each thread.
pub data Step {W T : Type 0} (handle : ℕ → T) (s : System W T) : System W T → Type 0 where
  pick :
      (i : ℕ) {c : Option (Call W T)} {m : WakerList W T} {p : Pc W T}
      → Move (handle i) s.mem (s.pc i) c m p
      → Step handle s (record { mem = m; pc = update s.pc i p })

-- The states that threads can reach from an empty list.
pub data Reach {W T : Type 0} (handle : ℕ → T) : System W T → Type 0 where
  fresh : Reach handle (record { mem = new; pc = λ _. idle })
  later : {s t : System W T} → Reach handle s → Step handle s t → Reach handle t
