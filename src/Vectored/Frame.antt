-- ===== src/Vectored/Frame.antt =====
-- `VectoredSlice::frame` of src/write_vectored.rs: what it shows, and its end.
mod Lists
use swap_buffer_queue.Prelude.{
  ℕ, zero, suc, ◌+◌, ◌-◌, ◌≤◌, ◌<◌, ◌≡◌, refl, ◌∙◌, ap, Option, none, some, List, [], ◌∷◌, ◌++◌,
  length, get_elem?, set, take, drop, ltb, length-set, length-drop, length-append, arith, true,
}
use mathlib.Core.List.{append-nil}
use swap_buffer_queue.Prelude.Run.{done}
use swap_buffer_queue.Vectored.{
  Bound, included, excluded, unbounded, VectoredFrame, frame_start, frame_end, window, replace,
  replace_some, inner_start, inner_end, frame, frame_slices, write, write_back, drop_frame,
}
use swap_buffer_queue.Vectored.Frame.Lists.{
  drop-set, drop-set_above, take-set, take-drop_append, get_elem?-lt, get_elem?-set_other,
  set-set_back, set-set-set_back, take-length,
}

module _ {I : Type 0} where
  -- An optional io-slice as a list.
  abbrev pub given : Option I → List I
  given none = []
  given (some v) = v ∷ []

  -- The io-slices with both ends of the window replaced.
  abbrev framed : List I → ℕ → ℕ → I → I → List I
  framed l s e h t = set (set l s h) (e - 1) t

  window-ok :
      (l : List I) (s e : ℕ)
      → s ≤ e
      → e ≤ length l
      → window s e l ≡ done (take (e - s) (drop s l)) l
  unfolding window
  window-ok l s e below fits = ground arith

  replace-ok :
      (l : List I) (i : ℕ) (v old : I)
      → get_elem? l i ≡ some old
      → replace i v l ≡ done old (set l i v)
  unfolding replace
  replace-ok l i v old found = ground arith

  -- What the window of replaced ends shows.
  framed-shows :
      (l : List I) (s e : ℕ) (h t : I)
      → s + 2 ≤ e
      → e ≤ length l
      → take (e - s) (drop s (framed l s e h t))
        ≡ h ∷ (take (e - 2 - s) (drop (suc s) l) ++ (t ∷ []))
  framed-shows l s e h t apart fits =
      let shorter : e - s ≡ suc (suc (e - 2 - s)) = omega (arith, apart) in
      let last : e - 1 - s ≡ suc (e - 2 - s) = omega (arith, apart) in
      let below : s ≤ e - 1 = omega (arith, apart) in
      let first : s < length l = omega (arith, apart, fits) in
      rw (drop-set_above (set l s h) s (e - 1) t below, drop-set l s h first, last, shorter)
        (ap (λ r. h ∷ r)
          (take-set (drop (suc s) l) (e - 2 - s) t
            (omega (arith, length-drop (suc s) l, apart, fits))))

  -- A frame of this window, with its parts, and the run of its end.
  abbrev Frames : List I → (s e : ℕ) → (header trailer : Option I) → Bound → Bound → Type 0
  Frames l s e header trailer from until =
      (f : VectoredFrame I) × (l' : List I) × (frame from until header trailer l ≡ done f l')
      × (frame_slices f l'
          ≡ done (given header ++ (take (e - 2 - s) (drop (suc s) l) ++ given trailer)) l')
      × (drop_frame f l' ≡ done tt l)

  module _ (from until : Bound) (l : List I) (s e : ℕ) (begins : frame_start from ≡ s)
      (ends : frame_end until (length l) ≡ e) (apart : s + 2 ≤ e) (fits : e ≤ length l) where
    drop_framed :
        (h t old old' : I)
        → get_elem? l s ≡ some old
        → get_elem? l (e - 1) ≡ some old'
        → drop_frame
            (record { start = s; end = e; header = some old; trailer = some old' })
            (framed l s e h t)
          ≡ done tt l
    unfolding drop_frame write_back write
    drop_framed h t old old' at_s at_e =
        let first : s + 0 ≡ s = omega arith in
        let last : s + (e - s - 1) ≡ e - 1 = omega (arith, apart) in
        let some_left : ltb 0 (e - s) ≡ true = ground arith in
        let last_in : ltb (e - s - 1) (e - s) ≡ true = ground arith in
        rw (some_left, last_in, first, last)
          (ap (λ r. done tt r)
            (set-set-set_back l s (e - 1) h t old old' (omega (arith, apart)) at_s at_e))

    frame_both : (h t : I) → Frames l s e (some h) (some t) from until
    unfolding frame frame_slices inner_start inner_end replace_some
    frame_both h t =
        let (old, at_s) = get_elem?-lt l s (omega (arith, apart, fits)) in
        let (old', at_e) = get_elem?-lt l (e - 1) (omega (arith, apart, fits)) in
        let still : get_elem? (set l s h) (e - 1) ≡ some old' =
          get_elem?-set_other l s (e - 1) h (omega (arith, apart)) ∙ at_e in
        let len : length (framed l s e h t) ≡ length l =
          length-set (set l s h) (e - 1) t ∙ length-set l s h in
        let shown : window s e (framed l s e h t)
            ≡ done (h ∷ (take (e - 2 - s) (drop (suc s) l) ++ (t ∷ []))) (framed l s e h t) =
          window-ok (framed l s e h t) s e (omega (arith, apart)) (omega (arith, len, fits))
          ∙ ap (λ r. done r (framed l s e h t)) (framed-shows l s e h t apart fits) in
        (
          record { start = s; end = e; header = some old; trailer = some old' },
          framed l s e h t,
          ground (
            arith,
            begins,
            ends,
            replace-ok l s h old at_s,
            replace-ok (set l s h) (e - 1) t old' still,
            shown,
          ),
          shown,
          drop_framed h t old old' at_s at_e,
        )

    frame_neither : Frames l s e none none from until
    unfolding frame frame_slices inner_start inner_end replace_some drop_frame write_back
    frame_neither =
        let between : e - 1 - (s + 1) ≡ e - 2 - s = omega (arith, apart) in
        let next : s + 1 ≡ suc s = omega arith in
        let shown : window (s + 1) (e - 1) l ≡ done (take (e - 2 - s) (drop (suc s) l) ++ []) l =
          window-ok l (s + 1) (e - 1) (omega (arith, apart)) (omega (arith, fits))
          ∙ rw (between, next, append-nil) in
        (
          record { start = s + 1; end = e - 1; header = none; trailer = none },
          l,
          ground (arith, begins, ends, shown),
          shown,
          refl,
        )

    frame_header : (h : I) → Frames l s e (some h) none from until
    unfolding frame frame_slices inner_start inner_end replace_some drop_frame write_back write
    frame_header h =
        let (old, at_s) = get_elem?-lt l s (omega (arith, apart, fits)) in
        let between : e - 1 - s ≡ suc (e - 2 - s) = omega (arith, apart) in
        let shown : window s (e - 1) (set l s h)
            ≡ done (h ∷ (take (e - 2 - s) (drop (suc s) l) ++ [])) (set l s h) =
          window-ok (set l s h) s (e - 1) (omega (arith, apart))
            (omega (arith, fits, length-set l s h))
          ∙ rw (between, drop-set l s h (omega (arith, apart, fits)), append-nil) in
        let first : s + 0 ≡ s = omega arith in
        let some_left : ltb 0 (e - 1 - s) ≡ true = ground arith in
        (
          record { start = s; end = e - 1; header = some old; trailer = none },
          set l s h,
          ground (arith, begins, ends, replace-ok l s h old at_s, shown),
          shown,
          rw (some_left, first) (ap (λ r. done tt r) (set-set_back l s h old at_s)),
        )

    frame_trailer : (t : I) → Frames l s e none (some t) from until
    unfolding frame frame_slices inner_start inner_end replace_some drop_frame write_back write
    frame_trailer t =
        let (old, at_e) = get_elem?-lt l (e - 1) (omega (arith, apart, fits)) in
        let between : e - (s + 1) ≡ suc (e - 2 - s) = omega (arith, apart) in
        let inside : e - 1 - suc s ≡ e - 2 - s = omega (arith, apart) in
        let next : s + 1 ≡ suc s = omega arith in
        let shown : window (s + 1) e (set l (e - 1) t)
            ≡ done (take (e - 2 - s) (drop (suc s) l) ++ (t ∷ [])) (set l (e - 1) t) =
          window-ok (set l (e - 1) t) (s + 1) e (omega (arith, apart))
            (omega (arith, fits, length-set l (e - 1) t))
          ∙ rw (between, next, drop-set_above l (suc s) (e - 1) t (omega (arith, apart)), inside)
              (ap (λ r. done r (set l (e - 1) t))
                (take-set (drop (suc s) l) (e - 2 - s) t
                  (omega (arith, length-drop (suc s) l, apart, fits)))) in
        let last : s + 1 + (e - (s + 1) - 1) ≡ e - 1 = omega (arith, apart) in
        let last_in : ltb (e - (s + 1) - 1) (e - (s + 1)) ≡ true = ground arith in
        (
          record { start = s + 1; end = e; header = none; trailer = some old },
          set l (e - 1) t,
          ground (arith, begins, ends, replace-ok l (e - 1) t old at_e, shown),
          shown,
          rw (last_in, last) (ap (λ r. done tt r) (set-set_back l (e - 1) t old at_e)),
        )

  -- On io-slices with room for both ends between the bounds that the code computes, every frame is
  -- made without a panic and shows the header, if there is one, the io-slices between the two ends,
  -- and the trailer, if there is one. When the frame is dropped the io-slices are as before.
  pub frame_lem :
      (from until : Bound) (l : List I) (header trailer : Option I)
      → frame_start from + 2 ≤ frame_end until (length l)
      → frame_end until (length l) ≤ length l
      → Frames l (frame_start from) (frame_end until (length l)) header trailer from until
  frame_lem from until l (some h) (some t) apart fits =
      frame_both from until l _ _ refl refl apart fits h t
  frame_lem from until l (some h) none apart fits =
      frame_header from until l _ _ refl refl apart fits h
  frame_lem from until l none (some t) apart fits =
      frame_trailer from until l _ _ refl refl apart fits t
  frame_lem from until l none none apart fits = frame_neither from until l _ _ refl refl apart fits

  -- The whole slice `..` is framed as the documentation says: the header, every io-slice of the
  -- values, and the trailer, each of the two ends only if it is given.
  pub frame_whole :
      (front back : I) (xs : List I) (header trailer : Option I)
      → (f : VectoredFrame I) × (l' : List I) × (frame unbounded unbounded header trailer
            (front ∷ (xs ++ (back ∷ [])))
          ≡ done f l')
        × (frame_slices f l' ≡ done (given header ++ (xs ++ given trailer)) l')
  unfolding frame_start frame_end
  frame_whole front back xs header trailer =
      let len : length (xs ++ (back ∷ [])) ≡ length xs + 1 = length-append xs (back ∷ []) in
      let (f, l', ran, shows, dropped) =
        frame_lem unbounded unbounded (front ∷ (xs ++ (back ∷ []))) header trailer
          (omega (arith, len)) (omega arith) in
      let inside : suc (length (xs ++ (back ∷ []))) - 2 - 0 ≡ length xs = omega (arith, len) in
      let all : take (length xs) (xs ++ (back ∷ [])) ≡ xs =
        take-drop_append (length xs) 0 xs (back ∷ []) (omega arith) ∙ take-length xs in
      (f, l', ran, shows ∙ rw (inside, all))

  -- With an end bound `..n` the frame leaves out the last io-slice of the range: it shows the header,
  -- the values of `from..n - 1`, and the trailer.
  pub frame_excluded-short :
      (front back h t : I) (xs : List I) (from n : ℕ)
      → from < n
      → n ≤ length xs
      → (f : VectoredFrame I) × (l' : List I) × (frame
            (included from)
            (excluded n)
            (some h)
            (some t)
            (front ∷ (xs ++ (back ∷ [])))
          ≡ done f l')
        × (frame_slices f l' ≡ done (h ∷ (take (n - 1 - from) (drop from xs) ++ (t ∷ []))) l')
  unfolding frame_start frame_end
  frame_excluded-short front back h t xs from n less fits =
      let len : length (xs ++ (back ∷ [])) ≡ length xs + 1 = length-append xs (back ∷ []) in
      let (f, l', ran, shows, dropped) =
        frame_lem (included from) (excluded n) (front ∷ (xs ++ (back ∷ []))) (some h) (some t)
          (omega (arith, less)) (omega (arith, len, fits)) in
      let inside : n + 1 - 2 - from ≡ n - 1 - from = omega arith in
      let part : take (n - 1 - from) (drop from (xs ++ (back ∷ [])))
          ≡ take (n - 1 - from) (drop from xs) =
        take-drop_append (n - 1 - from) from xs (back ∷ []) (omega (arith, less, fits)) in
      (f, l', ran, shows ∙ rw (inside, part))
