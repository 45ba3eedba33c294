-- ===== src/Prelude/Slots.antt =====
-- Slots that hold an item or nothing: which items stand from an index on, and writing items there.
use Prim.Native.Nat.{ℕ, zero, suc, ◌+◌, ◌≤◌, ◌<◌}
use mathlib.Core.Path.{◌≡◌, refl, ap, ◌∙◌}
use mathlib.Core.Logic.{◌≢◌}
use mathlib.Core.List.{List, [], ◌∷◌, ◌++◌}
use mathlib.Core.Option.{Option, none, some}
use native.Mathlib.Omega.{arith}
use swap_buffer_queue.Prelude.Lists.{length, get_elem?, set, length-set}

module _ {ℓ} {X : Type ℓ} where
  -- The slots hold these items, from this index on.
  abbrev pub Holds : List (Option X) → ℕ → List X → Type ℓ
  Holds slots i [] = Unit
  Holds slots i (x ∷ xs) = (get_elem? slots i ≡ some (some x)) × Holds slots (suc i) xs

  -- The slots of this range hold nothing.
  abbrev pub Free : List (Option X) → (lo hi : ℕ) → Type ℓ
  Free slots lo hi = (k : ℕ) → lo ≤ k → k < hi → get_elem? slots k ≡ some none

  -- Empties slots from an index on, as many as there are rounds.
  abbrev pub emptied : List (Option X) → (index rounds : ℕ) → List (Option X)
  emptied slots index zero = slots
  emptied slots index (suc rounds) = emptied (set slots index none) (suc index) rounds

  pub length-emptied :
      (slots : List (Option X)) (index rounds : ℕ)
      → length (emptied slots index rounds) ≡ length slots
  length-emptied slots index zero = refl
  length-emptied slots index (suc rounds) =
      length-emptied (set slots index none) (suc index) rounds ∙ length-set slots index none

  -- Writes the items from an index on.
  abbrev pub fill : List (Option X) → ℕ → List X → List (Option X)
  fill slots i [] = slots
  fill slots i (x ∷ xs) = fill (set slots i (some x)) (suc i) xs

  pub length-fill :
      (slots : List (Option X)) (i : ℕ) (xs : List X) → length (fill slots i xs) ≡ length slots
  length-fill slots i [] = refl
  length-fill slots i (x ∷ xs) =
      length-fill (set slots i (some x)) (suc i) xs ∙ length-set slots i (some x)

  -- What follows is written after it.
  pub fill-append :
      (slots : List (Option X)) (i : ℕ) (xs ys : List X)
      → fill (fill slots i xs) (i + length xs) ys ≡ fill slots i (xs ++ ys)
  fill-append slots i [] ys = ground arith
  fill-append slots i (x ∷ xs) ys =
      let shifted : i + suc (length xs) ≡ suc i + length xs = omega arith in
      rw shifted (fill-append (set slots i (some x)) (suc i) xs ys)

module _ {ℓ} {A : Type ℓ} where
  pub get_elem?-set_self :
      (xs : List A) (i : ℕ) (v : A) → i < length xs → get_elem? (set xs i v) i ≡ some v
  get_elem?-set_self [] i v h = elim h [ ]
  get_elem?-set_self (x ∷ xs) zero v h = refl
  get_elem?-set_self (x ∷ xs) (suc i) v h = get_elem?-set_self xs i v (omega arith)

  pub get_elem?-set_ne :
      (xs : List A) (i j : ℕ) (v : A) → i ≢ j → get_elem? (set xs i v) j ≡ get_elem? xs j
  get_elem?-set_ne [] i j v h = refl
  get_elem?-set_ne (x ∷ xs) zero zero v h = absurd (h refl)
  get_elem?-set_ne (x ∷ xs) zero (suc j) v h = refl
  get_elem?-set_ne (x ∷ xs) (suc i) zero v h = refl
  get_elem?-set_ne (x ∷ xs) (suc i) (suc j) v h = get_elem?-set_ne xs i j v (λ e. h (ap suc e))

module _ {ℓ} {X : Type ℓ} where
  -- A write below the range, or above it, leaves the range alone.
  pub Holds-set_below :
      (slots : List (Option X)) (i j : ℕ) (o : Option X) (xs : List X)
      → i < j
      → Holds slots j xs
      → Holds (set slots i o) j xs
  Holds-set_below slots i j o [] h held = tt
  Holds-set_below slots i j o (x ∷ xs) h held = (
    get_elem?-set_ne slots i j o (omega arith) ∙ held.0,
    Holds-set_below slots i (suc j) o xs (omega arith) held.1,
  )

  pub Holds-set_above :
      (slots : List (Option X)) (i j : ℕ) (o : Option X) (xs : List X)
      → j + length xs ≤ i
      → Holds slots j xs
      → Holds (set slots i o) j xs
  Holds-set_above slots i j o [] h held = tt
  Holds-set_above slots i j o (x ∷ xs) h held = (
    get_elem?-set_ne slots i j o (omega arith) ∙ held.0,
    Holds-set_above slots i (suc j) o xs (omega arith) held.1,
  )

  pub Holds-fill_above :
      (slots : List (Option X)) (i j : ℕ) (xs ys : List X)
      → j + length xs ≤ i
      → Holds slots j xs
      → Holds (fill slots i ys) j xs
  Holds-fill_above slots i j xs [] h held = held
  Holds-fill_above slots i j xs (y ∷ ys) h held =
      Holds-fill_above (set slots i (some y)) (suc i) j xs ys (omega arith)
        (Holds-set_above slots i j (some y) xs h held)

  -- What was written stands there.
  pub Holds-fill :
      (slots : List (Option X)) (i : ℕ) (xs : List X)
      → i + length xs ≤ length slots
      → Holds (fill slots i xs) i xs
  Holds-fill slots i [] h = tt
  Holds-fill slots i (x ∷ xs) h = (
    (Holds-fill_above (set slots i (some x)) (suc i) i (x ∷ []) xs (omega arith)
        (get_elem?-set_self slots i (some x) (omega arith), tt)).0,
    Holds-fill (set slots i (some x)) (suc i) xs (omega (arith, length-set slots i (some x))),
  )

  pub Holds-append :
      (slots : List (Option X)) (i j : ℕ) (xs ys : List X)
      → i + length xs ≡ j
      → Holds slots i xs
      → Holds slots j ys
      → Holds slots i (xs ++ ys)
  Holds-append slots i j [] ys e hx hy = ground (arith)
  Holds-append slots i j (x ∷ xs) ys e hx hy =
      (hx.0, Holds-append slots (suc i) j xs ys (omega arith) hx.1 hy)
