-- ===== src/Error.antt =====
-- src/error.rs: the error types of the queue, and `Result`.

pub data Result {ℓ κ} (A : Type ℓ) (E : Type κ) : Type (ℓ ⊔ κ) where
  ok : A → Result A E
  err : E → Result A E

pub data TryEnqueueError {ℓ} (T : Type ℓ) : Type ℓ where
  insufficient_capacity : T → TryEnqueueError T
  closed : T → TryEnqueueError T

-- `EnqueueError` is an alias.
abbrev pub EnqueueError {ℓ} : Type ℓ → Type ℓ
EnqueueError = TryEnqueueError

pub into_inner {ℓ} : {T : Type ℓ} → TryEnqueueError T → T
into_inner (insufficient_capacity v) = v
into_inner (closed v) = v

pub data TryDequeueError : Type 0 where
  empty pending closed conflict : TryDequeueError

pub data DequeueError : Type 0 where
  closed conflict : DequeueError
