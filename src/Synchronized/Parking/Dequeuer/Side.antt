-- ===== src/Synchronized/Parking/Dequeuer/Side.antt =====
-- On which side of the `AtomicWaker` a thread stays from one step to the next.
use swap_buffer_queue.Prelude.{◌≡◌, ◌≢◌, refl, Bool, true, false, Option, none, some}
use swap_buffer_queue.Synchronized.Waker.{Call}
use swap_buffer_queue.Synchronized.AtomicWaker.{AtomicWaker, Pc, idle, Move}
use swap_buffer_queue.Synchronized.AtomicWaker.Inv.{registers}
use swap_buffer_queue.Synchronized.Parking.Dequeuer.{calls_register, calls_wake}
use swap_buffer_queue.Synchronized.Parking.Dequeuer.Heard.{clears, takes}

module _ {W T : Type 0} {same_task : W → W → Bool} {current : T} {m : AtomicWaker W T} where
  pub still-none :
      {p p' : Pc W T} {c : Option (Call W T)} {m' : AtomicWaker W T}
      → Move same_task current m p c m' p'
      → registers p ≡ false
      → m.waker ≡ none
      → m'.waker ≡ none
  still-none Move.store side void = cc side
  still-none (Move.take_back _) side void = refl
  still-none Move.take_waker side void = refl
  still-none _ side void = void

  pub clears-none :
      {p p' : Pc W T} {c : Option (Call W T)} {m' : AtomicWaker W T}
      → Move same_task current m p c m' p'
      → clears p' ≡ true
      → m'.waker ≡ none
  clears-none Move.take_waker e = refl
  clears-none (Move.clear_waking {waker = none}) e = cc e
  clears-none (Move.clear_waking {waker = some _}) e = cc e
  clears-none _ e = cc e

  pub registers-kept :
      {p p' : Pc W T} {c : Option (Call W T)} {m' : AtomicWaker W T}
      → Move same_task current m p c m' p'
      → p ≢ idle
      → registers p ≡ false
      → registers p' ≡ false
  registers-kept (Move.register_start _) ne side = absurd (ne refl)
  registers-kept Move.store ne side = side
  registers-kept (Move.give_back_fails _) ne side = side
  registers-kept (Move.take_back _) ne side = side
  registers-kept (Move.clear_waking {waker = none}) ne side = refl
  registers-kept (Move.clear_waking {waker = some _}) ne side = refl
  registers-kept _ ne side = refl

  pub takes-kept :
      {p p' : Pc W T} {c : Option (Call W T)} {m' : AtomicWaker W T}
      → Move same_task current m p c m' p'
      → p ≢ idle
      → takes p ≡ false
      → takes p' ≡ false
  takes-kept (Move.wake_start _) ne side = absurd (ne refl)
  takes-kept Move.take_waker ne side = side
  takes-kept (Move.clear_waking {waker = none}) ne side = refl
  takes-kept (Move.clear_waking {waker = some _}) ne side = refl
  takes-kept _ ne side = refl

  pub register-side :
      (hears : Call W T → Bool) {p p' : Pc W T} {c : Option (Call W T)} {m' : AtomicWaker W T}
      → (move : Move same_task current m p c m' p') → calls_register hears move ≡ true
      → takes p' ≡ false
  register-side hears (Move.register_start _) e = refl
  register-side hears (Move.register_woken _ _) e = refl
  register-side hears (Move.register_busy _ _) e = refl
  register-side hears _ e = cc e

  pub wake-side :
      {p p' : Pc W T} {c : Option (Call W T)} {m' : AtomicWaker W T}
      → (move : Move same_task current m p c m' p') → calls_wake move ≡ true
      → registers p' ≡ false
  wake-side (Move.wake_start _) e = refl
  wake-side (Move.wake_busy _) e = refl
  wake-side _ e = cc e
