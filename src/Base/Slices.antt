-- ===== src/Base/Slices.antt =====
-- Slices of a list: take, drop and the write of a slice.
use Prim.Native.Nat.{ℕ, zero, suc, ◌+◌, ◌≤◌}
use mathlib.Core.Path.{◌≡◌, refl, sym, ap, ◌∙◌}
use mathlib.Core.List.{List, [], ◌∷◌, ◌++◌}
use native.Mathlib.Omega.{arith}
use haybarn_httpfs.Base.Lists.{length, take, drop, length-take, length-drop}

module _ {ℓ} {A : Type ℓ} where
  pub drop-nil : (n : ℕ) → drop {A = A} n [] ≡ []
  drop-nil zero = refl
  drop-nil (suc n) = refl

  pub take-nil : (n : ℕ) → take {A = A} n [] ≡ []
  take-nil zero = refl
  take-nil (suc n) = refl

  pub drop-drop : (k a b : ℕ) (xs : List A) → k ≡ a + b → drop b (drop a xs) ≡ drop k xs
  drop-drop k zero b xs e = ap (λ n. drop n xs) (omega arith)
  drop-drop zero (suc a) b xs e = absurd (omega arith)
  drop-drop (suc k) (suc a) b [] e = drop-nil b
  drop-drop (suc k) (suc a) b (x ∷ xs) e = drop-drop k a b xs (omega arith)

  -- Two adjacent slices make one.
  pub take-add : (k a b : ℕ) (xs : List A) → k ≡ a + b → take k xs ≡ take a xs ++ take b (drop a xs)
  take-add k zero b xs e = ap (λ n. take n xs) (omega arith)
  take-add zero (suc a) b xs e = absurd (omega arith)
  take-add (suc k) (suc a) b [] e = sym (take-nil b)
  take-add (suc k) (suc a) b (x ∷ xs) e = ap (λ l. x ∷ l) (take-add k a b xs (omega arith))

  take-take : (a b : ℕ) (xs : List A) → a ≤ b → take a (take b xs) ≡ take a xs
  take-take zero b xs h = refl
  take-take (suc a) zero xs h = absurd (omega arith)
  take-take (suc a) (suc b) [] h = refl
  take-take (suc a) (suc b) (x ∷ xs) h = ap (λ l. x ∷ l) (take-take a b xs (omega arith))

  take-drop-take :
      (len i w : ℕ) (xs : List A)
      → i + len ≤ w
      → take len (drop i (take w xs)) ≡ take len (drop i xs)
  take-drop-take len zero w xs h = take-take len w xs (omega arith)
  take-drop-take len (suc i) zero xs h = absurd (omega arith)
  take-drop-take len (suc i) (suc w) [] h = refl
  take-drop-take len (suc i) (suc w) (x ∷ xs) h = take-drop-take len i w xs (omega arith)

  -- Lists that agree on a window agree on each slice of it.
  pub slice-of-window :
      (len i w : ℕ) (xs ys : List A)
      → take w xs ≡ take w ys
      → i + len ≤ w
      → take len (drop i xs) ≡ take len (drop i ys)
  slice-of-window len i w xs ys e h =
      sym (take-drop-take len i w xs h)
      ∙ ap (λ l. take len (drop i l)) e
      ∙ take-drop-take len i w ys h

  pub length-slice :
      (len i : ℕ) (xs : List A) → i + len ≤ length xs → length (take len (drop i xs)) ≡ len
  length-slice len i xs h = omega (arith, length-take len (drop i xs), length-drop i xs)

  pub drop-append : (n : ℕ) (xs ys : List A) → n ≡ length xs → drop n (xs ++ ys) ≡ ys
  drop-append zero [] ys e = refl
  drop-append zero (x ∷ xs) ys e = absurd (omega arith)
  drop-append (suc n) [] ys e = absurd (omega arith)
  drop-append (suc n) (x ∷ xs) ys e = drop-append n xs ys (omega arith)

  pub take-append : (n : ℕ) (xs ys : List A) → n ≡ length xs → take n (xs ++ ys) ≡ xs
  take-append zero [] ys e = refl
  take-append zero (x ∷ xs) ys e = absurd (omega arith)
  take-append (suc n) [] ys e = absurd (omega arith)
  take-append (suc n) (x ∷ xs) ys e = ap (λ l. x ∷ l) (take-append n xs ys (omega arith))
