-- ===== src/Prelude/Run.antt =====
-- Code that reads and writes a state, and may stop: by a panic, which unwinds and leaves the state
-- as it is at that moment, or by a fault, which stands for undefined behaviour.
use Prim.Native.Nat.{ℕ, zero, suc}
use mathlib.Core.Option.{Option, none, some}

pub data Run {ℓ κ} (S : Type ℓ) (A : Type κ) : Type (ℓ ⊔ κ) where
  done : A → S → Run S A
  panic : S → Run S A
  fault : Run S A

abbrev pub Cmd {ℓ κ} : Type ℓ → Type κ → Type (ℓ ⊔ κ)
Cmd S A = S → Run S A

module _ {ℓ κ μ} {S : Type ℓ} {A : Type κ} {C : Type μ} where
  abbrev pub and_then : Run S A → (A → Cmd S C) → Run S C
  and_then (done a s) k = k a s
  and_then (panic s) k = panic s
  and_then fault k = fault

  infixl 5 ◌>>=◌ ◌>>◌
  abbrev pub ◌>>=◌ : Cmd S A → (A → Cmd S C) → Cmd S C
  ◌>>=◌ m k s = and_then (m s) k

  abbrev pub ◌>>◌ : Cmd S A → Cmd S C → Cmd S C
  ◌>>◌ m k s = and_then (m s) (λ _. k)

module _ {ℓ} {S : Type ℓ} where
  abbrev pub pure {κ} : {A : Type κ} → A → Cmd S A
  pure a s = done a s

  abbrev pub get : Cmd S S
  get s = done s s

  abbrev pub modify : (S → S) → Cmd S (Unit {0})
  modify f s = done tt (f s)

  -- `.unwrap()` and `.expect()`
  abbrev pub unwrap {κ} : {A : Type κ} → Option A → Cmd S A
  unwrap (some a) s = done a s
  unwrap none s = panic s

-- Code on a part of a state, with the way to put the part back.
abbrev pub zoom {ℓ κ μ} :
    {S : Type ℓ} {P : Type μ} {A : Type κ} → (S → P) → (P → S → S) → Cmd P A → Cmd S A
zoom part put m s = elim (m (part s)) [
  | done a p ↦ done a (put p s)
  | panic p ↦ panic (put p s)
  | fault ↦ fault
]

-- `for index in range`, with the number of rounds that are left.
unfoldable pub for_range {ℓ} :
    {S : Type ℓ} → (ℕ → Cmd S (Unit {0})) → (index rounds : ℕ) → Cmd S (Unit {0})
for_range body index zero s = done tt s
for_range body index (suc rounds) s =
    and_then (body index s) (λ _. for_range body (suc index) rounds)
