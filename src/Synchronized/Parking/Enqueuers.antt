-- ===== src/Synchronized/Parking/Enqueuers.antt =====
-- src/synchronized.rs: threads that wait for room, among threads that dequeue, close and notify. Each
-- registers in the `WakerList`, looks at the queue once more and waits, while the others change the
-- queue and then wake. The steps of the `WakerList` are those of WakerList.antt; a look at the queue,
-- and a change of it, are one step each.
pub mod Heard
pub mod Inv
pub mod Act
pub mod Safety
use swap_buffer_queue.Prelude.{ℕ, ◌≡◌, ◌≢◌, Bool, true, false, Option}
use swap_buffer_queue.Threads.{update}
use swap_buffer_queue.Synchronized.Waker.{Call, wake}
use swap_buffer_queue.Synchronized.Waker as Waker_of
use swap_buffer_queue.Synchronized.WakerList.{WakerList, Pc, idle, Move}
use swap_buffer_queue.Synchronized.WakerList as Listed
use swap_buffer_queue.Synchronized.Parking.{
  Place, outside, registering, looking, parked, published, notifying, hear,
}

-- `token` tells for each thread whether it, or its task, has been called since it last waited.
pub record State (Q W T : Type 0) : Type 0 where
  pub queue : Q
  pub mem : WakerList W T
  pub place : ℕ → Place (Pc W T)
  pub token : ℕ → Bool

-- A queue that nobody uses.
abbrev pub new : {Q W T : Type 0} → Q → State Q W T
new queue = record { queue = queue; mem = Listed.new; place = λ j. outside; token = λ j. false }

module _ {W T : Type 0} {current : T} {m : WakerList W T} where
  -- The first step of `register`, with a context that wakes the caller.
  abbrev pub calls_register :
      (hears : Call W T → Bool)
      → {p p' : Pc W T} {c : Option (Call W T)} {m' : WakerList W T} → Move current m p c m' p'
      → Bool
  calls_register hears (Move.register_lock cx _) = hears (wake (Waker_of.new current cx))
  calls_register hears _ = false

  -- The first step of `wake`.
  abbrev pub calls_wake :
      {p p' : Pc W T} {c : Option (Call W T)} {m' : WakerList W T} → Move current m p c m' p' → Bool
  calls_wake (Move.wake_none _) = true
  calls_wake (Move.wake_load _) = true
  calls_wake _ = false

-- `hears` tells for each thread the calls that wake it, and `goes` whether a look at the queue answers
-- something else than that its value waits for room.
module _ {Q W T : Type 0} (handle : ℕ → T) (hears : ℕ → Call W T → Bool) (goes : ℕ → Q → Bool) where
  -- What was answered to nobody is answered to nobody now.
  abbrev pub Quiet : Q → Q → Type 0
  Quiet queue queue' = (j : ℕ) → goes j queue' ≡ true → goes j queue ≡ true

  pub data Step (s : State Q W T) : State Q W T → Type 0 where
    register_begins :
        (i : ℕ) {c : Option (Call W T)} {m : WakerList W T} {p : Pc W T}
        → s.place i ≡ outside
        → (move : Move (handle i) s.mem idle c m p) → calls_register (hears i) move ≡ true
        → Step s (record s {
          mem = m;
          place = update s.place i (registering p);
          token = λ j. hear (hears j) c (s.token j);
        })
    register_goes_on :
        (i : ℕ) {c : Option (Call W T)} {m : WakerList W T} {p p' : Pc W T}
        → s.place i ≡ registering p
        → p ≢ idle
        → Move (handle i) s.mem p c m p'
        → Step s (record s {
          mem = m;
          place = update s.place i (registering p');
          token = λ j. hear (hears j) c (s.token j);
        })
    register_ends :
        (i : ℕ)
        → s.place i ≡ registering idle
        → Step s (record s { place = update s.place i looking })
    finds :
        (i : ℕ) (queue : Q)
        → s.place i ≡ looking
        → goes i s.queue ≡ true
        → Quiet s.queue queue
        → Step s (record s { queue = queue; place = update s.place i outside })
    parks :
        (i : ℕ)
        → s.place i ≡ looking
        → goes i s.queue ≡ false
        → Step s (record s { place = update s.place i parked })
    -- `thread::park` returns, woken or not, or the task is polled again.
    returns :
        (i : ℕ)
        → s.place i ≡ parked
        → Step s (record s { place = update s.place i outside; token = update s.token i false })
    -- What a thread does to the queue that it does not notify of afterwards.
    changes : (queue : Q) → Quiet s.queue queue → Step s (record s { queue = queue })
    publishes :
        (i : ℕ) (queue : Q)
        → s.place i ≡ outside
        → Step s (record s { queue = queue; place = update s.place i published })
    wake_begins :
        (i : ℕ) {c : Option (Call W T)} {m : WakerList W T} {p : Pc W T}
        → s.place i ≡ published
        → (move : Move (handle i) s.mem idle c m p) → calls_wake move ≡ true
        → Step s (record s {
          mem = m;
          place = update s.place i (notifying p);
          token = λ j. hear (hears j) c (s.token j);
        })
    wake_goes_on :
        (i : ℕ) {c : Option (Call W T)} {m : WakerList W T} {p p' : Pc W T}
        → s.place i ≡ notifying p
        → p ≢ idle
        → Move (handle i) s.mem p c m p'
        → Step s (record s {
          mem = m;
          place = update s.place i (notifying p');
          token = λ j. hear (hears j) c (s.token j);
        })
    wake_ends :
        (i : ℕ)
        → s.place i ≡ notifying idle
        → Step s (record s { place = update s.place i outside })

  -- The states that the threads can reach, in any order of their steps.
  pub data Reach : State Q W T → Type 0 where
    fresh : (queue : Q) → Reach (new queue)
    later : {s t : State Q W T} → Reach s → Step s t → Reach t
