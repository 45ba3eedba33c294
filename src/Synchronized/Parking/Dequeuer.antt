-- ===== src/Synchronized/Parking/Dequeuer.antt =====
-- src/synchronized.rs: a thread that waits for items, among threads that enqueue, close and notify. It
-- registers in the `AtomicWaker`, looks at the queue once more and waits, while the others change the
-- queue and then wake. The steps of the `AtomicWaker` are those of AtomicWaker.antt; a look at the
-- queue, and a change of it, are one step each.
pub mod Heard
pub mod Side
pub mod Inv
pub mod Act
pub mod Ends
pub mod Woken
pub mod Rest
pub mod Safety
pub mod Progress
use swap_buffer_queue.Prelude.{ℕ, ◌≡◌, ◌≢◌, Bool, true, false, Option}
use swap_buffer_queue.Threads.{update}
use swap_buffer_queue.Synchronized.Waker.{Call}
use swap_buffer_queue.Synchronized.AtomicWaker.{AtomicWaker, wake_current, Pc, idle, Move}
use swap_buffer_queue.Synchronized.AtomicWaker as Atomic
use swap_buffer_queue.Synchronized.Parking.{
  Place, outside, registering, looking, parked, published, notifying, hear,
}

-- `token` tells whether the waiting thread, or its task, has been called since it last waited.
pub record State (Q W T : Type 0) : Type 0 where
  pub queue : Q
  pub mem : AtomicWaker W T
  pub place : ℕ → Place (Pc W T)
  pub token : Bool

-- A queue that nobody uses.
abbrev pub new : {Q W T : Type 0} → Q → State Q W T
new queue = record { queue = queue; mem = Atomic.new; place = λ j. outside; token = false }

module _ {W T : Type 0} {same_task : W → W → Bool} {current : T} {m : AtomicWaker W T} where
  -- The first step of `register`, with a context that wakes the caller.
  abbrev pub calls_register :
      (hears : Call W T → Bool)
      → {p p' : Pc W T} {c : Option (Call W T)} {m' : AtomicWaker W T}
      → Move same_task current m p c m' p'
      → Bool
  calls_register hears (Move.register_start {cx = cx} _) = hears (wake_current current cx)
  calls_register hears (Move.register_woken cx _) = hears (wake_current current cx)
  calls_register hears (Move.register_busy _ _) = true
  calls_register hears _ = false

  -- The first step of `wake`.
  abbrev pub calls_wake :
      {p p' : Pc W T} {c : Option (Call W T)} {m' : AtomicWaker W T}
      → Move same_task current m p c m' p'
      → Bool
  calls_wake (Move.wake_start _) = true
  calls_wake (Move.wake_busy _) = true
  calls_wake _ = false

-- `consumer` is the thread that waits, `hears` tells the calls that wake it, and `found` whether a look
-- at the queue answers something else than that it is empty or pending.
module _ {Q W T : Type 0} (same_task : W → W → Bool) (handle : ℕ → T) (consumer : ℕ)
    (hears : Call W T → Bool) (found : Q → Bool) where
  pub data Step (s : State Q W T) : State Q W T → Type 0 where
    register_begins :
        {c : Option (Call W T)} {m : AtomicWaker W T} {p : Pc W T}
        → s.place consumer ≡ outside
        → (move : Move same_task (handle consumer) s.mem idle c m p)
        → calls_register hears move ≡ true
        → Step s (record s {
          mem = m;
          place = update s.place consumer (registering p);
          token = hear hears c s.token;
        })
    register_goes_on :
        {c : Option (Call W T)} {m : AtomicWaker W T} {p p' : Pc W T}
        → s.place consumer ≡ registering p
        → p ≢ idle
        → Move same_task (handle consumer) s.mem p c m p'
        → Step s (record s {
          mem = m;
          place = update s.place consumer (registering p');
          token = hear hears c s.token;
        })
    register_ends :
        s.place consumer ≡ registering idle
        → Step s (record s { place = update s.place consumer looking })
    finds :
        (queue : Q)
        → s.place consumer ≡ looking
        → found s.queue ≡ true
        → Step s (record s { queue = queue; place = update s.place consumer outside })
    parks :
        (queue : Q)
        → s.place consumer ≡ looking
        → found s.queue ≡ false
        → found queue ≡ false
        → Step s (record s { queue = queue; place = update s.place consumer parked })
    -- `thread::park` returns, woken or not, or the task is polled again.
    returns :
        s.place consumer ≡ parked
        → Step s (record s { place = update s.place consumer outside; token = false })
    -- While it spins, or keeps or drops what it has dequeued.
    uses : (queue : Q) → s.place consumer ≡ outside → Step s (record s { queue = queue })
    -- What a thread does to the queue that it does not notify of afterwards.
    changes :
        (queue : Q)
        → (found queue ≡ true → found s.queue ≡ true)
        → Step s (record s { queue = queue })
    publishes :
        (i : ℕ) (queue : Q)
        → s.place i ≡ outside
        → Step s (record s { queue = queue; place = update s.place i published })
    wake_begins :
        (i : ℕ) {c : Option (Call W T)} {m : AtomicWaker W T} {p : Pc W T}
        → s.place i ≡ published
        → (move : Move same_task (handle i) s.mem idle c m p) → calls_wake move ≡ true
        → Step s (record s {
          mem = m;
          place = update s.place i (notifying p);
          token = hear hears c s.token;
        })
    wake_goes_on :
        (i : ℕ) {c : Option (Call W T)} {m : AtomicWaker W T} {p p' : Pc W T}
        → s.place i ≡ notifying p
        → p ≢ idle
        → Move same_task (handle i) s.mem p c m p'
        → Step s (record s {
          mem = m;
          place = update s.place i (notifying p');
          token = hear hears c s.token;
        })
    wake_ends :
        (i : ℕ)
        → s.place i ≡ notifying idle
        → Step s (record s { place = update s.place i outside })

  -- The states that the threads can reach, in any order of their steps.
  pub data Reach : State Q W T → Type 0 where
    fresh : (queue : Q) → Reach (new queue)
    later : {s t : State Q W T} → Reach s → Step s t → Reach t
