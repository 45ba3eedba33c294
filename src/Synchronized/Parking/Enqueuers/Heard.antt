-- ===== src/Synchronized/Parking/Enqueuers/Heard.antt =====
-- The wakers that one step of the `WakerList` moves, and a call that it makes.
use swap_buffer_queue.Prelude.{
  ◌≡◌, ◌≢◌, refl, subst, ◌∙◌, Bool, true, false, not, ◌||◌, Option, List, [], ◌∷◌, ◌++◌,
}
use swap_buffer_queue.Synchronized.Waker.{Waker, Call, wake}
use swap_buffer_queue.Synchronized.WakerList.{
  WakerList, Pc, idle, adding, pushing, loaded, exchanged, draining, Move,
}
use swap_buffer_queue.Synchronized.Parking.{Place, registering, notifying, hear}
use swap_buffer_queue.Synchronized.Parking.Enqueuers.{calls_register, calls_wake}

pub or_true : (b : Bool) → b || true ≡ true
or_true true = refl
or_true false = refl

or_mono : (a b d : Bool) → (b ≡ true → d ≡ true) → (a || b) ≡ true → (a || d) ≡ true
or_mono true b d step e = refl
or_mono false b d step e = step e

or_assoc : (a b d : Bool) → (a || b) || d ≡ a || (b || d)
or_assoc true b d = refl
or_assoc false b d = refl

module _ {W T : Type 0} where
  abbrev pub is_idle : Pc W T → Bool
  is_idle idle = true
  is_idle _ = false

  abbrev pub adds : Pc W T → Bool
  adds (adding _) = true
  adds (pushing _) = true
  adds _ = false

  abbrev pub wakes : Pc W T → Bool
  wakes loaded = true
  wakes exchanged = true
  wakes draining = true
  wakes _ = false

  -- What a thread may do in the functions of the notifier, by where it stands.
  abbrev pub role : Place (Pc W T) → Bool
  role (registering p) = not (wakes p)
  role (notifying p) = not (adds p)
  role _ = true

  module _ (hears : Call W T → Bool) where
    -- Some waker of the list wakes the thread.
    abbrev pub listed : List (Waker W T) → Bool
    listed [] = false
    listed (w ∷ ws) = hears (wake w) || listed ws

    -- The waker that a thread is adding wakes it.
    abbrev pub heard : Pc W T → Bool
    heard (adding w) = hears (wake w)
    heard (pushing w) = hears (wake w)
    heard _ = true

    listed-kept :
        (ws : List (Waker W T)) (w : Waker W T) → listed ws ≡ true → listed (ws ++ (w ∷ [])) ≡ true
    listed-kept [] w e = cc e
    listed-kept (x ∷ xs) w e =
        or_mono (hears (wake x)) (listed xs) (listed (xs ++ (w ∷ []))) (listed-kept xs w) e

    listed-last :
        (ws : List (Waker W T)) (w : Waker W T)
        → hears (wake w) ≡ true
        → listed (ws ++ (w ∷ [])) ≡ true
    listed-last [] w e = rw e
    listed-last (x ∷ xs) w e = rw (listed-last xs w e, or_true (hears (wake x)))

    pub listed-some : (ws : List (Waker W T)) → listed ws ≡ true → ws ≢ []
    listed-some [] e = cc e
    listed-some (w ∷ ws) e = λ e'. cc e'

    module _ {current : T} {m : WakerList W T} where
      -- What is listed stays so until the call.
      pub live-kept :
          {p p' : Pc W T} {c : Option (Call W T)} {m' : WakerList W T}
          → Move current m p c m' p'
          → (token : Bool) → (token || listed m.wakers) ≡ true
          → (hear hears c token || listed m'.wakers) ≡ true
      live-kept (Move.register_push {waker = w}) true known = refl
      live-kept (Move.register_push {waker = w}) false known = listed-kept m.wakers w known
      live-kept (Move.wake_call {waker = w} {rest = rest} e) token known =
          or_assoc token (hears (wake w)) (listed rest)
          ∙ subst (λ ws. (token || listed ws) ≡ true) e known
      live-kept _ token known = known

      -- `register` ends with the waker in the list.
      pub registered-live :
          {p p' : Pc W T} {c : Option (Call W T)} {m' : WakerList W T}
          → Move current m p c m' p'
          → p ≢ idle
          → wakes p ≡ false
          → heard p ≡ true
          → is_idle p' ≡ true
          → listed m'.wakers ≡ true
      registered-live (Move.register_push {waker = w}) ne side mine e = listed-last m.wakers w mine
      registered-live (Move.wake_none _) ne side mine e = absurd (ne refl)
      registered-live (Move.wake_late _) ne side mine e = cc side
      registered-live (Move.wake_unlock _) ne side mine e = cc side
      registered-live _ ne side mine e = cc e

      pub pc-heard :
          {p p' : Pc W T} {c : Option (Call W T)} {m' : WakerList W T}
          → Move current m p c m' p'
          → p ≢ idle
          → heard p ≡ true
          → heard p' ≡ true
      pc-heard (Move.register_lock _ _) ne mine = absurd (ne refl)
      pc-heard (Move.register_first _) ne mine = mine
      pc-heard (Move.register_next _) ne mine = mine
      pc-heard _ ne mine = refl

      pub register-heard :
          {p p' : Pc W T} {c : Option (Call W T)} {m' : WakerList W T}
          → (move : Move current m p c m' p') → calls_register hears move ≡ true
          → (heard p' ≡ true) × ((wakes p' ≡ false) × (is_idle p' ≡ false))
      register-heard (Move.register_lock _ _) e = (e, (refl, refl))
      register-heard _ e = cc e

  module _ {current : T} {m : WakerList W T} where
    pub wake-side :
        {p p' : Pc W T} {c : Option (Call W T)} {m' : WakerList W T}
        → (move : Move current m p c m' p') → calls_wake move ≡ true
        → (adds p' ≡ false) × ((hears : Call W T → Bool) → heard hears p' ≡ true)
    wake-side (Move.wake_none _) e = (refl, λ hears. refl)
    wake-side (Move.wake_load _) e = (refl, λ hears. refl)
    wake-side _ e = cc e

    pub adds-kept :
        {p p' : Pc W T} {c : Option (Call W T)} {m' : WakerList W T}
        → Move current m p c m' p'
        → p ≢ idle
        → adds p ≡ false
        → adds p' ≡ false
    adds-kept (Move.register_lock _ _) ne side = absurd (ne refl)
    adds-kept (Move.register_first _) ne side = side
    adds-kept (Move.register_next _) ne side = side
    adds-kept _ ne side = refl

    pub wakes-kept :
        {p p' : Pc W T} {c : Option (Call W T)} {m' : WakerList W T}
        → Move current m p c m' p'
        → p ≢ idle
        → wakes p ≡ false
        → wakes p' ≡ false
    wakes-kept (Move.wake_load _) ne side = absurd (ne refl)
    wakes-kept (Move.wake_exchange _) ne side = side
    wakes-kept (Move.wake_lock _) ne side = side
    wakes-kept (Move.wake_call _) ne side = side
    wakes-kept _ ne side = refl
