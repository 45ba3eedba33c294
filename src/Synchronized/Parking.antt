-- ===== src/Synchronized/Parking.antt =====
-- src/synchronized.rs: where a thread stands that waits for the queue, or that changes it and notifies,
-- shared by the side that dequeues and the side that enqueues.
pub mod Looks
pub mod Dequeuer
pub mod Enqueuers
use mathlib.Core.Path.{fun_ext}
use swap_buffer_queue.Prelude.{
  ℕ, ◌≡◌, inl, inr, subst, Bool, true, false, ◌||◌, Option, none, some, ◌==◌, Bool-cases, arith,
}
use swap_buffer_queue.Threads.{update}
use swap_buffer_queue.Synchronized.Waker.{Call}

-- `P` is where a thread stands in the functions of the notifier.
pub data Place (P : Type 0) : Type 0 where
  outside : Place P
  -- in `register`, before it looks at the queue once more, and after it has answered that it waits
  registering : P → Place P
  looking : Place P
  parked : Place P
  -- before the call of `wake`, and in it
  published : Place P
  notifying : P → Place P

-- What a thread has heard of, after a step that makes a call or none.
abbrev pub hear : {C : Type 0} → (hears : C → Bool) → Option C → Bool → Bool
hear hears none token = token
hear hears (some c) token = token || hears c

module _ {P : Type 0} (idle : P) where
  abbrev pub inner : Place P → P
  inner (registering p) = p
  inner (notifying p) = p
  inner _ = idle

  -- Has registered, and is about to look or to wait.
  abbrev pub waits : (P → Bool) → Place P → Bool
  waits is_idle (registering p) = is_idle p
  waits is_idle looking = true
  waits is_idle parked = true
  waits is_idle _ = false

  pub inner-update :
      (place : ℕ → Place P) (i : ℕ) (x : Place P)
      → ◌≡◌ {A = ℕ → P}
          (λ j. inner (update place i x j))
          (update (λ j. inner (place j)) i (inner x))
  inner-update place i x =
      fun_ext (λ j. elim (Bool-cases (i == j)) [ inl e ↦ rw e | inr ne ↦ rw ne ])

  -- A change of the place only.
  pub inner-same :
      (place : ℕ → Place P) (i : ℕ) (x : Place P)
      → inner x ≡ inner (place i)
      → ◌≡◌ {A = ℕ → P} (λ j. inner (update place i x j)) (λ j. inner (place j))
  inner-same place i x same = fun_ext (λ j. elim (Bool-cases (i == j)) [
    | inl e ↦
        let here : i ≡ j = ground (arith, e) in
        let there : inner x ≡ inner (place j) = subst (λ k. inner x ≡ inner (place k)) here same in
        rw e there
    | inr ne ↦ rw ne
  ])
