-- ===== src/Client/Pages.antt =====
-- A list in pieces of a given length: `chunks` and `div_ceil` as `stream_snapshot` of
-- crates/k10s-server/src/control.rs uses them.
use k10s.Base.{
  ℕ, zero, suc, ◌+◌, ◌-◌, ◌/◌, ◌≤◌, ◌<◌, ◌≡◌, refl, sym, ap, ◌∙◌, inl, inr, List, [], ◌∷◌, ◌++◌,
  arith, length, leb, Bool-cases,
}
use native.Mathlib.Nat.{div-eq-sub-div, div-eq_of_lt}

unfoldable pub div_ceil : ℕ → ℕ → ℕ
div_ceil n k = (n + k - 1) / k

div_ceil_step : (n k : ℕ) → 0 < k → 0 < n → div_ceil n k ≡ suc (div_ceil (n - k) k)
unfolding div_ceil
div_ceil_step n k p q = elim (Bool-cases (leb k n)) [
  | inl c ↦
      let same : n + k - 1 - k ≡ n - k + k - 1 = ground arith in
      div-eq-sub-div p (omega arith) ∙ ap (λ (t : ℕ). t / k + 1) same ∙ omega arith
  | inr c ↦
      let same : n + k - 1 - k ≡ n - 1 = ground arith in
      let none_left : n - k + k - 1 ≡ k - 1 = ground arith in
      let small : (n - 1) / k ≡ 0 = div-eq_of_lt (ground arith) in
      let rest : (n - k + k - 1) / k ≡ 0 = rw none_left (div-eq_of_lt (omega arith)) in
      div-eq-sub-div p (omega arith) ∙ ap (λ (t : ℕ). t / k + 1) same ∙ omega arith
]

module _ {A : Type 0} where
  abbrev pub take : ℕ → List A → List A
  take zero xs = []
  take (suc n) [] = []
  take (suc n) (x ∷ xs) = x ∷ take n xs

  abbrev pub drop : ℕ → List A → List A
  drop zero xs = xs
  drop (suc n) [] = []
  drop (suc n) (x ∷ xs) = drop n xs

  take-append-drop : (n : ℕ) (xs : List A) → take n xs ++ drop n xs ≡ xs
  take-append-drop zero xs = refl
  take-append-drop (suc n) [] = refl
  take-append-drop (suc n) (x ∷ xs) = ap (λ ys. x ∷ ys) (take-append-drop n xs)

  length-drop : (n : ℕ) (xs : List A) → length (drop n xs) ≡ length xs - n
  length-drop zero xs = omega arith
  length-drop (suc n) [] = omega arith
  length-drop (suc n) (x ∷ xs) = omega (arith, length-drop n xs)

  -- `chunks`, on as much fuel as the list has elements.
  unfoldable pub chunks_within : ℕ → ℕ → List A → List (List A)
  chunks_within zero k xs = []
  chunks_within (suc fuel) k [] = []
  chunks_within (suc fuel) k (x ∷ xs) = take k (x ∷ xs) ∷ chunks_within fuel k (drop k (x ∷ xs))

  unfoldable pub chunks : ℕ → List A → List (List A)
  unfolding chunks_within
  chunks k xs = chunks_within (length xs) k xs

  abbrev pub concat : List (List A) → List A
  concat [] = []
  concat (xs ∷ xss) = xs ++ concat xss

  concat-chunks_within :
      (fuel k : ℕ) (xs : List A) → 0 < k → length xs ≤ fuel → concat (chunks_within fuel k xs) ≡ xs
  unfolding chunks_within
  concat-chunks_within zero k [] p h = refl
  concat-chunks_within zero k (x ∷ xs) p h = absurd (omega arith)
  concat-chunks_within (suc fuel) k [] p h = refl
  concat-chunks_within (suc fuel) k (x ∷ xs) p h =
      let less : length (drop k (x ∷ xs)) ≤ fuel = omega (arith, length-drop k (x ∷ xs)) in
      ap (λ ys. take k (x ∷ xs) ++ ys) (concat-chunks_within fuel k (drop k (x ∷ xs)) p less)
      ∙ take-append-drop k (x ∷ xs)

  -- The pieces make up the list.
  pub concat-chunks : (k : ℕ) (xs : List A) → 0 < k → concat (chunks k xs) ≡ xs
  unfolding chunks
  concat-chunks k xs p = concat-chunks_within (length xs) k xs p (omega arith)

  length-chunks_within :
      (fuel k : ℕ) (xs : List A)
      → 0 < k
      → length xs ≤ fuel
      → length (chunks_within fuel k xs) ≡ div_ceil (length xs) k
  unfolding chunks_within
  length-chunks_within zero k [] p h = unfold div_ceil in sym (div-eq_of_lt (omega arith))
  length-chunks_within zero k (x ∷ xs) p h = absurd (omega arith)
  length-chunks_within (suc fuel) k [] p h = unfold div_ceil in sym (div-eq_of_lt (omega arith))
  length-chunks_within (suc fuel) k (x ∷ xs) p h =
      let less : length (drop k (x ∷ xs)) ≤ fuel = omega (arith, length-drop k (x ∷ xs)) in
      ap suc (
        length-chunks_within fuel k (drop k (x ∷ xs)) p less
        ∙ ap (λ n. div_ceil n k) (length-drop k (x ∷ xs)))
      ∙ sym (div_ceil_step (length (x ∷ xs)) k p (omega arith))

  -- There are as many pieces as `div_ceil` says.
  pub length-chunks : (k : ℕ) (xs : List A) → 0 < k → length (chunks k xs) ≡ div_ceil (length xs) k
  unfolding chunks
  length-chunks k xs p = length-chunks_within (length xs) k xs p (omega arith)

  -- There is a piece of a list that is not empty.
  pub some_chunks : (k : ℕ) (x : A) (xs : List A) → 0 < length (chunks k (x ∷ xs))
  unfolding chunks
  some_chunks k x xs = omega arith
