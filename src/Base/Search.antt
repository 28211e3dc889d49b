-- ===== src/Base/Search.antt =====
-- Where a character stands in a text, and the slices that its position cuts.
use Prim.Native.Nat.{ℕ, zero, suc, ◌≤◌, ◌+◌}
use mathlib.Core.Path.{◌≡◌, refl, sym, ap, ◌∙◌}
use mathlib.Core.Logic.{inl, inr}
use mathlib.Core.Bool.{Bool, true, ◌&&◌, not}
use mathlib.Core.List.{[], ◌∷◌, ◌++◌}
use mathlib.Core.Option.{none, some}
use mathlib.Core.Option
use native.Mathlib.Omega.{arith}
use haybarn_httpfs.Base.Tests.{◌==◌, Option-cases}
use haybarn_httpfs.Base.Lists.{length, drop}
use haybarn_httpfs.Base.Strings.{Text, starts_with, find_first, find, substr}
use haybarn_httpfs.Base.Slices.{drop-append, take-append}

-- A text that does not hold a character.
unfoldable pub is_free_of : ℕ → Text → Bool
is_free_of c [] = true
is_free_of c (d ∷ s) = not (c == d) && is_free_of c s

pub find_first-character :
    (c : ℕ) (s t : Text)
    → is_free_of c s ≡ true
    → find_first (s ++ (c ∷ t)) (c ∷ []) ≡ some (length s)
unfolding find_first starts_with is_free_of
find_first-character c [] t h = ground arith
find_first-character c (d ∷ s) t h = ground (arith, find_first-character c s t)

pub find_first-absent : (c : ℕ) (s : Text) → is_free_of c s ≡ true → find_first s (c ∷ []) ≡ none
unfolding find_first starts_with is_free_of
find_first-absent c [] h = refl
find_first-absent c (d ∷ s) h = ground (arith, find_first-absent c s)

-- A search that starts behind `a`.
pub find-behind :
    (url a s t : Text) (c n m : ℕ)
    → url ≡ a ++ (s ++ c ∷ t)
    → n ≡ length a
    → m ≡ n + length s
    → is_free_of c s ≡ true
    → find url (c ∷ []) n ≡ some m
unfolding find
find-behind url a s t c n m e l k h =
    rw (e, drop-append n a (s ++ c ∷ t) l, find_first-character c s t h, k) refl

pub find-behind_absent :
    (url a s : Text) (c n : ℕ)
    → url ≡ a ++ s
    → n ≡ length a
    → is_free_of c s ≡ true
    → find url (c ∷ []) n ≡ none
unfolding find
find-behind_absent url a s c n e l h = rw (e, drop-append n a s l, find_first-absent c s h) refl

pub substr-behind :
    (url a s t : Text) (n k : ℕ)
    → url ≡ a ++ (s ++ t)
    → n ≡ length a
    → k ≡ length s
    → substr url n k ≡ s
unfolding substr
substr-behind url a s t n k e l m = rw (e, drop-append n a (s ++ t) l, take-append k s t m) refl

pub is_free_of-append :
    (c : ℕ) (s t : Text)
    → is_free_of c s ≡ true
    → is_free_of c t ≡ true
    → is_free_of c (s ++ t) ≡ true
unfolding is_free_of
is_free_of-append c [] t h k = k
is_free_of-append c (d ∷ s) t h k = ground (arith, is_free_of-append c s t)

-- No position of a character stands in a text that is free of it.
pub length-le-find_first :
    (c : ℕ) (s t : Text) {k : ℕ}
    → is_free_of c s ≡ true
    → find_first (s ++ t) (c ∷ []) ≡ some k
    → length s ≤ k
unfolding find_first starts_with is_free_of
length-le-find_first c [] t h e = omega arith
length-le-find_first c (d ∷ s) t {k = zero} h e = absurd (ground arith)
length-le-find_first c (d ∷ s) t {k = suc k} h e =
    ground (arith, length-le-find_first c s t {k = k})

pub le-find-behind :
    (url a s t : Text) (c n m : ℕ)
    → url ≡ a ++ (s ++ t)
    → n ≡ length a
    → is_free_of c s ≡ true
    → find url (c ∷ []) n ≡ some m
    → n + length s ≤ m
unfolding find
le-find-behind url a s t c n m e l h f =
    let moved = ap (drop n) e ∙ drop-append n a (s ++ t) l in
    let shown = sym (ap (λ x. Option.map (λ k. n + k) (find_first x (c ∷ []))) moved) ∙ f in
    elim (Option-cases (find_first (s ++ t) (c ∷ []))) [
      | inl none_found ↦ absurd (ground (arith, none_found, shown))
      | inr (k, found) ↦ ground (arith, found, shown, length-le-find_first c s t {k = k} h found)
    ]
