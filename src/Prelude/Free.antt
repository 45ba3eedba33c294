-- ===== src/Prelude/Free.antt =====
-- Slots that hold nothing: what writing and emptying ranges leaves of them.
use Prim.Native.Nat.{ℕ, zero, suc, ◌+◌, ◌≤◌, ◌<◌}
use mathlib.Core.Path.{◌≡◌, refl, sym, ap, ◌∙◌}
use mathlib.Core.Logic.{◌⊎◌, inl, inr}
use mathlib.Core.List.{List, [], ◌∷◌}
use mathlib.Core.Option.{Option, none, some}
use native.Mathlib.Omega.{arith}
use swap_buffer_queue.Prelude.Tests.{Bool-cases, ltb, ◌==◌}
use swap_buffer_queue.Prelude.Lists.{length, get_elem?, set, length-set, replicate}
use swap_buffer_queue.Prelude.Slots.{
  Free, emptied, length-emptied, fill, get_elem?-set_self, get_elem?-set_ne,
}

module _ {ℓ} {A : Type ℓ} where
  pub get_elem?-replicate : (n k : ℕ) (v : A) → k < n → get_elem? (replicate n v) k ≡ some v
  get_elem?-replicate zero k v high = absurd (omega (arith, high))
  get_elem?-replicate (suc n) zero v high = refl
  get_elem?-replicate (suc n) (suc k) v high = get_elem?-replicate n k v (omega (arith, high))

module _ {ℓ} {X : Type ℓ} where
  -- What stands outside of the range that is written or emptied stays.
  pub get_elem?-fill_out :
      (slots : List (Option X)) (i : ℕ) (xs : List X) (k : ℕ)
      → (k < i) ⊎ (i + length xs ≤ k)
      → get_elem? (fill slots i xs) k ≡ get_elem? slots k
  get_elem?-fill_out slots i [] k out = refl
  get_elem?-fill_out slots i (x ∷ xs) k out =
      get_elem?-fill_out (set slots i (some x)) (suc i) xs k (elim out [
        | inl below ↦ inl (omega (arith, below))
        | inr above ↦ inr (omega (arith, above))
      ])
      ∙ get_elem?-set_ne slots i k (some x)
          (elim out [ inl below ↦ omega (arith, below) | inr above ↦ omega (arith, above) ])

  get_elem?-emptied_out :
      (slots : List (Option X)) (i rounds k : ℕ)
      → (k < i) ⊎ (i + rounds ≤ k)
      → get_elem? (emptied slots i rounds) k ≡ get_elem? slots k
  get_elem?-emptied_out slots i zero k out = refl
  get_elem?-emptied_out slots i (suc rounds) k out =
      get_elem?-emptied_out (set slots i none) (suc i) rounds k (elim out [
        | inl below ↦ inl (omega (arith, below))
        | inr above ↦ inr (omega (arith, above))
      ])
      ∙ get_elem?-set_ne slots i k none
          (elim out [ inl below ↦ omega (arith, below) | inr above ↦ omega (arith, above) ])

  -- What was emptied holds nothing.
  Free-emptied :
      (slots : List (Option X)) (i rounds : ℕ)
      → i + rounds ≤ length slots
      → Free (emptied slots i rounds) i (i + rounds)
  Free-emptied slots i zero fits k above below = absurd (omega (arith, above, below))
  Free-emptied slots i (suc rounds) fits k above below = elim (Bool-cases (i == k)) [
    | inl e ↦
        let here : i ≡ k = ground (arith, e) in
        get_elem?-emptied_out (set slots i none) (suc i) rounds k (inl (omega (arith, here)))
        ∙ ap (get_elem? (set slots i none)) (sym here)
        ∙ get_elem?-set_self slots i none (omega (arith, fits))
    | inr ne ↦
        Free-emptied (set slots i none) (suc i) rounds
          (omega (arith, fits, length-set slots i none)) k (ground (arith, ne, above))
          (omega (arith, below))
  ]

  -- If nothing stands on either side of a range, then nothing is left when the range is emptied.
  pub Free-cleared :
      (slots : List (Option X)) (i rounds : ℕ)
      → i + rounds ≤ length slots
      → Free slots 0 i
      → Free slots (i + rounds) (length slots)
      → Free (emptied slots i rounds) 0 (length (emptied slots i rounds))
  Free-cleared slots i rounds fits below above k low high = elim (Bool-cases (ltb k i)) [
    | inl e ↦
        get_elem?-emptied_out slots i rounds k (inl (ground (arith, e)))
        ∙ below k low (ground (arith, e))
    | inr ne ↦ elim (Bool-cases (ltb k (i + rounds))) [
      | inl e ↦ Free-emptied slots i rounds fits k (ground (arith, ne)) (ground (arith, e))
      | inr past ↦
          get_elem?-emptied_out slots i rounds k (inr (ground (arith, past)))
          ∙ above k (ground (arith, past)) (omega (arith, high, length-emptied slots i rounds))
    ]
  ]

  pub Free-fill :
      (slots : List (Option X)) (i : ℕ) (xs : List X) (hi : ℕ)
      → Free slots i hi
      → Free (fill slots i xs) (i + length xs) hi
  Free-fill slots i xs hi free k above below =
      get_elem?-fill_out slots i xs k (inr above) ∙ free k (omega (arith, above)) below

  -- An item that is taken out leaves its slot empty, and the items after it still end a range.
  pub Free-set-none :
      (slots : List (Option X)) (i lo hi : ℕ) (xs : List X)
      → i < length slots
      → Free slots lo i
      → Free slots (suc i + length xs) hi
      → Free (set slots i none) lo (suc i) × Free (set slots i none) (suc i + length xs) hi
  Free-set-none slots i lo hi xs fits below above = (
    λ k low high. elim (Bool-cases (i == k)) [
      | inl e ↦
          let here : i ≡ k = ground (arith, e) in
          ap (get_elem? (set slots i none)) (sym here) ∙ get_elem?-set_self slots i none fits
      | inr ne ↦
          get_elem?-set_ne slots i k none (ground (arith, ne))
          ∙ below k low (ground (arith, ne, high))
    ],
    λ k low high. get_elem?-set_ne slots i k none (omega (arith, low)) ∙ above k low high,
  )
