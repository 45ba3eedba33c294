-- ===== src/Vectored/Frame/Lists.antt =====
-- Lists of io-slices: windows of them, and items replaced and put back.
use swap_buffer_queue.Prelude.{
  ℕ, zero, suc, ◌+◌, ◌-◌, ◌≤◌, ◌<◌, ◌≡◌, refl, ◌∙◌, ap, some, List, [], ◌∷◌, ◌++◌, length,
  get_elem?, set, take, drop, arith,
}

module _ {I : Type 0} where
  pub drop-set :
      (l : List I) (i : ℕ) (v : I) → i < length l → drop i (set l i v) ≡ v ∷ drop (suc i) l
  drop-set [] i v small = absurd (omega (arith, small))
  drop-set (x ∷ l) zero v small = refl
  drop-set (x ∷ l) (suc i) v small = drop-set l i v (omega (arith, small))

  pub drop-set_above :
      (l : List I) (i k : ℕ) (v : I) → i ≤ k → drop i (set l k v) ≡ set (drop i l) (k - i) v
  drop-set_above l zero k v below = let same : k - 0 ≡ k = omega arith in rw same
  drop-set_above [] (suc i) k v below = refl
  drop-set_above (x ∷ l) (suc i) zero v below = absurd (omega (arith, below))
  drop-set_above (x ∷ l) (suc i) (suc k) v below =
      let same : suc k - suc i ≡ k - i = omega arith in
      rw same (drop-set_above l i k v (omega (arith, below)))

  pub take-set :
      (l : List I) (i : ℕ) (v : I) → i < length l → take (suc i) (set l i v) ≡ take i l ++ (v ∷ [])
  take-set [] i v small = absurd (omega (arith, small))
  take-set (x ∷ l) zero v small = refl
  take-set (x ∷ l) (suc i) v small = ap (λ r. x ∷ r) (take-set l i v (omega (arith, small)))

  pub take-drop_append :
      (k s : ℕ) (xs ys : List I)
      → s + k ≤ length xs
      → take k (drop s (xs ++ ys)) ≡ take k (drop s xs)
  take-drop_append zero s xs ys fits = refl
  take-drop_append (suc k) s [] ys fits = absurd (omega (arith, fits))
  take-drop_append (suc k) zero (x ∷ xs) ys fits =
      ap (λ r. x ∷ r) (take-drop_append k zero xs ys (omega (arith, fits)))
  take-drop_append (suc k) (suc s) (x ∷ xs) ys fits =
      take-drop_append (suc k) s xs ys (omega (arith, fits))

  pub get_elem?-lt : (l : List I) (i : ℕ) → i < length l → (v : I) × (get_elem? l i ≡ some v)
  get_elem?-lt [] i small = absurd (omega (arith, small))
  get_elem?-lt (x ∷ l) zero small = (x, refl)
  get_elem?-lt (x ∷ l) (suc i) small = get_elem?-lt l i (omega (arith, small))

  pub get_elem?-set_other :
      (l : List I) (i k : ℕ) (v : I) → i < k → get_elem? (set l i v) k ≡ get_elem? l k
  get_elem?-set_other [] i k v less = refl
  get_elem?-set_other (x ∷ l) i zero v less = absurd (omega (arith, less))
  get_elem?-set_other (x ∷ l) zero (suc k) v less = refl
  get_elem?-set_other (x ∷ l) (suc i) (suc k) v less =
      get_elem?-set_other l i k v (omega (arith, less))

  -- Writing back what stood at an index.
  pub set-set_back :
      (l : List I) (i : ℕ) (v old : I) → get_elem? l i ≡ some old → set (set l i v) i old ≡ l
  set-set_back [] i v old found = refl
  set-set_back (x ∷ l) zero v old found = grind (arith, found)
  set-set_back (x ∷ l) (suc i) v old found = ap (λ r. x ∷ r) (set-set_back l i v old found)

  pub set_comm :
      (l : List I) (i k : ℕ) (v w : I) → i < k → set (set l k w) i v ≡ set (set l i v) k w
  set_comm [] i k v w less = refl
  set_comm (x ∷ l) i zero v w less = absurd (omega (arith, less))
  set_comm (x ∷ l) zero (suc k) v w less = refl
  set_comm (x ∷ l) (suc i) (suc k) v w less =
      ap (λ r. x ∷ r) (set_comm l i k v w (omega (arith, less)))

  -- Two neighbours of a window replaced, and put back.
  pub set-set-set_back :
      (l : List I) (i k : ℕ) (v w old old' : I)
      → i < k
      → get_elem? l i ≡ some old
      → get_elem? l k ≡ some old'
      → set (set (set (set l i v) k w) i old) k old' ≡ l
  set-set-set_back l i k v w old old' less at_i at_k =
      ap (λ r. set r k old') (set_comm (set l i v) i k old w less)
      ∙ ap (λ r. set (set r k w) k old') (set-set_back l i v old at_i)
      ∙ set-set_back l k w old' at_k

  pub take-length : (xs : List I) → take (length xs) xs ≡ xs
  take-length [] = refl
  take-length (x ∷ xs) = ap (λ r. x ∷ r) (take-length xs)
