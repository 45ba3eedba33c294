-- ===== src/Threads.antt =====
-- One value for each thread, as a function of its number: a change of one value, who holds a lock, and
-- sums over the first threads.
use swap_buffer_queue.Prelude.{
  Option, none, some, Bool, true, ◌⊎◌, sym, ap, ◌∙◌, ℕ, zero, suc, ◌+◌, ◌≤◌, ◌<◌, ◌≡◌, ◌≢◌, refl,
  subst, inl, inr, false, arith, ◌==◌, if◌then◌else◌, Bool-cases,
}

abbrev pub update {ℓ} : {A : Type ℓ} → (ℕ → A) → ℕ → A → ℕ → A
update f i a j = if i == j then a else f j

pub update_self : {A : Type 0} (f : ℕ → A) (i : ℕ) (a : A) → update f i a i ≡ a
update_self f i a = ground arith

pub update_other : {A : Type 0} (f : ℕ → A) (i j : ℕ) (a : A) → i ≢ j → update f i a j ≡ f j
update_other f i j a other = ground arith

-- A property of each part, after the change of one.
pub each-update :
    {A : Type 0} (P : ℕ → A → Type 0) (f : ℕ → A) (i : ℕ) (a : A)
    → P i a
    → ((j : ℕ) → i ≢ j → P j (f j))
    → (j : ℕ) → P j (update f i a j)
each-update P f i a here others j = elim (Bool-cases (i == j)) [
  | inl e ↦ let at : i ≡ j = ground (arith, e) in rw e (subst (λ k. P k a) at here)
  | inr ne ↦ rw ne (others j (ground (arith, ne)))
]

-- A symmetric relation of any two parts, after the change of one.
pub pairs-update :
    {A : Type 0} (R : A → A → Type 0) (f : ℕ → A) (i : ℕ) (a : A)
    → ((j k : ℕ) → j ≢ k → R (f j) (f k))
    → ((j : ℕ) → i ≢ j → R a (f j))
    → ((j : ℕ) → i ≢ j → R (f j) a)
    → (j k : ℕ) → j ≢ k
    → R (update f i a j) (update f i a k)
pairs-update R f i a old left right j k other = elim (Bool-cases (i == j)) [
  | inl e ↦
      let ne : (i == k) ≡ false = ground (arith, e, other) in
      rw (e, ne) (left k (ground (arith, ne)))
  | inr ne ↦ elim (Bool-cases (i == k)) [
    | inl e ↦ rw (ne, e) (right j (ground (arith, ne)))
    | inr ne' ↦ rw (ne, ne') (old j k other)
  ]
]

-- `owner` is the thread that holds a lock, if one does, and `owns` tells where it stands then.
module _ {P : Type 0} (owns : P → Bool) (pc : ℕ → P) (i : ℕ) (p' : P) (owner : Option ℕ)
    (sole : (j : ℕ) → owns (pc j) ≡ true → owner ≡ some j) where
  -- A thread that holds the lock, or takes it when it is free, is the only one to hold it.
  pub sole_mine :
      (owner ≡ none) ⊎ (owner ≡ some i) → (j : ℕ) → owns (update pc i p' j) ≡ true → some i ≡ some j
  sole_mine free_or_mine j held = elim (Bool-cases (i == j)) [
    | inl e ↦ let here : i ≡ j = ground (arith, e) in ap some here
    | inr ne ↦
        let old : owner ≡ some j = sole j (ap owns (sym (rw ne)) ∙ held) in
        elim free_or_mine [ inl free ↦ cc (free, old) | inr mine ↦ sym mine ∙ old ]
  ]

  -- A thread that gives the lock back leaves nobody who holds it.
  pub sole_none :
      (owner ≡ some i) → owns p' ≡ false → (j : ℕ) → owns (update pc i p' j) ≡ true → none ≡ some j
  sole_none mine free j held = elim (Bool-cases (i == j)) [
    | inl e ↦ let here : update pc i p' j ≡ p' = rw e in cc (ap owns here)
    | inr ne ↦
        let old : owner ≡ some j = sole j (ap owns (sym (rw ne)) ∙ held) in
        let same : i ≡ j = cc (mine, old) in absurd (ground (arith, ne, same))
  ]

-- The sum of what each of the first threads contributes.
pub sum_of : (contribution : ℕ → ℕ) → (threads : ℕ) → ℕ
sum_of c zero = 0
sum_of c (suc before) = c before + sum_of c before

module _ (old new : ℕ → ℕ) where
  sum-agree :
      (threads : ℕ)
      → ((j : ℕ) → j < threads → new j ≡ old j)
      → sum_of new threads ≡ sum_of old threads
  unfolding sum_of
  sum-agree zero same = refl
  sum-agree (suc before) same =
      omega
        (arith, same before (omega arith), sum-agree before (λ j lt. same j (omega (arith, lt))))

  -- Two sums differ by what one thread contributes if the others contribute the same.
  pub sum-change :
      (i : ℕ)
      → ((j : ℕ) → i ≢ j → new j ≡ old j)
      → (threads : ℕ) → i < threads
      → sum_of new threads + old i ≡ sum_of old threads + new i
  unfolding sum_of
  sum-change i same zero lt = absurd (omega (arith, lt))
  sum-change i same (suc before) lt = elim (Bool-cases (i == before)) [
    | inl e ↦
        let last : i ≡ before = ground (arith, e) in
        let rest : sum_of new before ≡ sum_of old before =
          sum-agree before (λ j below. same j (omega (arith, last, below))) in
        rw last (omega (arith, rest))
    | inr ne ↦
        let other : i ≢ before = ground (arith, ne) in
        omega (arith, same before other, sum-change i same before (omega (arith, lt, other)))
  ]

module _ (c : ℕ → ℕ) where
  -- The contribution of one thread is within the sum.
  pub le-sum : (threads j : ℕ) → j < threads → c j ≤ sum_of c threads
  unfolding sum_of
  le-sum zero j lt = absurd (omega (arith, lt))
  le-sum (suc before) j lt = ground (arith, le-sum before j)

  pub sum-none : ((j : ℕ) → c j ≡ 0) → (threads : ℕ) → sum_of c threads ≡ 0
  unfolding sum_of
  sum-none none_each zero = refl
  sum-none none_each (suc before) = omega (arith, none_each before, sum-none none_each before)
