-- ===== src/Synchronized/Parking/Dequeuer/Heard.antt =====
-- The wakers that one step of the `AtomicWaker` moves, and a call that it makes.
use swap_buffer_queue.Prelude.{
  ◌≡◌, ◌≢◌, inl, inr, refl, subst, Bool, true, false, not, ◌&&◌, ◌||◌, Option, none, some,
  Bool-cases,
}
use swap_buffer_queue.Synchronized.Waker.{Waker, Call, wake, will_wake}
use swap_buffer_queue.Synchronized.Waker as Waker_of
use swap_buffer_queue.Synchronized.AtomicWaker.{
  AtomicWaker, stored_waker, wake_current, Pc, idle, storing, stored, handing_back, taking,
  clearing, calling, Move,
}
use swap_buffer_queue.Synchronized.AtomicWaker.Inv.{registers}
use swap_buffer_queue.Synchronized.Parking.{Place, registering, notifying, hear}
use swap_buffer_queue.Synchronized.Parking.Dequeuer.{calls_register, calls_wake}

pub or_true : (token : Bool) → token || true ≡ true
or_true true = refl
or_true false = refl

module _ {W T : Type 0} where
  abbrev pub is_idle : Pc W T → Bool
  is_idle idle = true
  is_idle _ = false

  -- Has taken a waker that it is going to call.
  abbrev pub bound : Pc W T → Bool
  bound (handing_back _) = true
  bound (clearing (some _)) = true
  bound (calling _) = true
  bound _ = false

  abbrev pub clears : Pc W T → Bool
  clears (clearing _) = true
  clears _ = false

  -- Has the cell on the side of `wake`.
  abbrev pub takes : Pc W T → Bool
  takes taking = true
  takes (clearing _) = true
  takes _ = false

  abbrev pub is_full : Option (Waker W T) → Bool
  is_full none = false
  is_full (some _) = true

  abbrev pub live : Bool → Option (Waker W T) → Pc W T → Bool
  live token cell p = token || (is_full cell || bound p)

  live-bound :
      (token : Bool) (cell : Option (Waker W T)) (p : Pc W T)
      → bound p ≡ true
      → live token cell p ≡ true
  live-bound token none p e = rw (e, or_true token)
  live-bound token (some _) p e = or_true token

  live_full :
      (token : Bool) (cell : Option (Waker W T)) (p : Pc W T)
      → is_full cell ≡ true
      → live token cell p ≡ true
  live_full token cell p e = rw (e, or_true token)

  taken-live :
      (token : Bool) (cell : Option (Waker W T))
      → live token cell taking ≡ true
      → live token none (clearing cell) ≡ true
  taken-live token none known = known
  taken-live token (some _) known = or_true token

  -- What a thread may do in the functions of the notifier, by where it stands.
  abbrev pub role : (is_consumer : Bool) → Place (Pc W T) → Bool
  role is_consumer (registering p) = is_consumer && not (takes p)
  role is_consumer (notifying p) = not (registers p)
  role is_consumer _ = true

  module _ (hears : Call W T → Bool) where
    abbrev pub heard_cell : Option (Waker W T) → Bool
    heard_cell none = true
    heard_cell (some w) = hears (wake w)

    -- A waker that a thread carries wakes the consumer.
    abbrev pub heard : (current : T) → Pc W T → Bool
    heard current (storing cx) = hears (wake_current current cx)
    heard current (handing_back w) = hears (wake w)
    heard current (clearing cell) = heard_cell cell
    heard current (calling w) = hears (wake w)
    heard current _ = true

    wake-new :
        (current : T) (cx : Option W) → wake (Waker_of.new current cx) ≡ wake_current current cx
    wake-new current none = refl
    wake-new current (some cx) = refl

    stored_waker-full :
        (same_task : W → W → Bool) (current : T) (cx : Option W) (cell : Option (Waker W T))
        → is_full (stored_waker same_task current cx cell) ≡ true
    stored_waker-full same_task current cx none = refl
    stored_waker-full same_task current cx (some old) =
        elim (Bool-cases (will_wake same_task old cx)) [ inl e ↦ rw e | inr ne ↦ rw ne ]

    stored_waker-heard :
        (same_task : W → W → Bool) (current : T) (cx : Option W) (cell : Option (Waker W T))
        → heard_cell cell ≡ true
        → hears (wake_current current cx) ≡ true
        → heard_cell (stored_waker same_task current cx cell) ≡ true
    stored_waker-heard same_task current cx none known ours = rw (wake-new current cx) ours
    stored_waker-heard same_task current cx (some old) known ours =
        elim (Bool-cases (will_wake same_task old cx)) [
          | inl e ↦ rw e known
          | inr ne ↦ rw (ne, wake-new current cx) ours
        ]

    module _ {same_task : W → W → Bool} {current : T} {m : AtomicWaker W T} where
      -- A step that begins `register` does it with a context that wakes the consumer.
      abbrev pub allowed :
          {p p' : Pc W T} {c : Option (Call W T)} {m' : AtomicWaker W T}
          → Move same_task current m p c m' p'
          → Bool
      allowed (Move.register_start {cx = cx} _) = hears (wake_current current cx)
      allowed (Move.register_woken cx _) = hears (wake_current current cx)
      allowed _ = true

      pub register-allowed :
          {p p' : Pc W T} {c : Option (Call W T)} {m' : AtomicWaker W T}
          → (move : Move same_task current m p c m' p') → calls_register hears move ≡ true
          → allowed move ≡ true
      register-allowed (Move.register_start _) e = e
      register-allowed (Move.register_woken _ _) e = e
      register-allowed _ e = refl

      pub wake-allowed :
          {p p' : Pc W T} {c : Option (Call W T)} {m' : AtomicWaker W T}
          → (move : Move same_task current m p c m' p') → calls_wake move ≡ true
          → allowed move ≡ true
      wake-allowed (Move.register_start _) e = cc e
      wake-allowed (Move.register_woken _ _) e = cc e
      wake-allowed _ e = refl

      pub busy-allowed :
          {p p' : Pc W T} {c : Option (Call W T)} {m' : AtomicWaker W T}
          → (move : Move same_task current m p c m' p') → p ≢ idle
          → allowed move ≡ true
      busy-allowed (Move.register_start _) ne = absurd (ne refl)
      busy-allowed (Move.register_woken _ _) ne = absurd (ne refl)
      busy-allowed _ ne = refl

      pub cell-heard :
          {p p' : Pc W T} {c : Option (Call W T)} {m' : AtomicWaker W T}
          → (move : Move same_task current m p c m' p') → allowed move ≡ true
          → heard_cell m.waker ≡ true
          → heard current p ≡ true
          → heard_cell m'.waker ≡ true
      cell-heard (Move.store {cx = cx}) ok known mine =
          stored_waker-heard same_task current cx m.waker known mine
      cell-heard (Move.take_back _) ok known mine = refl
      cell-heard Move.take_waker ok known mine = refl
      cell-heard _ ok known mine = known

      pub pc-heard :
          {p p' : Pc W T} {c : Option (Call W T)} {m' : AtomicWaker W T}
          → (move : Move same_task current m p c m' p') → allowed move ≡ true
          → heard_cell m.waker ≡ true
          → heard current p ≡ true
          → heard current p' ≡ true
      pc-heard (Move.register_start _) ok known mine = ok
      pc-heard (Move.take_back e) ok known mine = subst (λ cell. heard_cell cell ≡ true) e known
      pc-heard Move.hand_back ok known mine = mine
      pc-heard Move.take_waker ok known mine = known
      pc-heard (Move.clear_waking {waker = none}) ok known mine = refl
      pc-heard (Move.clear_waking {waker = some _}) ok known mine = mine
      pc-heard _ ok known mine = refl

      -- A waker in the cell, or one that the thread is going to call, stays so until the call.
      pub live-kept :
          {p p' : Pc W T} {c : Option (Call W T)} {m' : AtomicWaker W T}
          → (move : Move same_task current m p c m' p') → allowed move ≡ true
          → heard current p ≡ true
          → (token : Bool) → live token m.waker p ≡ true
          → live (hear hears c token) m'.waker p' ≡ true
      live-kept (Move.register_start _) ok mine token known = known
      live-kept (Move.register_woken _ _) ok mine token known = rw (ok, or_true token)
      live-kept (Move.register_busy _ _) ok mine token known = known
      live-kept (Move.store {cx = cx}) ok mine token known =
          live_full token (stored_waker same_task current cx m.waker) stored
            (stored_waker-full same_task current cx m.waker)
      live-kept (Move.give_back _) ok mine token known = known
      live-kept (Move.give_back_fails _) ok mine token known = known
      live-kept (Move.take_back e) ok mine token known = or_true token
      live-kept (Move.take_back_panics _) ok mine token known = known
      live-kept (Move.hand_back {waker = w}) ok mine token known =
          live-bound token m.waker (calling w) refl
      live-kept Move.call ok mine token known = rw (mine, or_true token)
      live-kept (Move.wake_start _) ok mine token known = known
      live-kept (Move.wake_busy _) ok mine token known = known
      live-kept Move.take_waker ok mine token known = taken-live token m.waker known
      live-kept (Move.clear_waking {waker = none}) ok mine token known = known
      live-kept (Move.clear_waking {waker = some _}) ok mine token known = known
