-- ===== src/Base/Counts.antt =====
-- How often a number occurs in a list, and the removal of its first occurrence.
use Prim.Native.Nat.{ℕ, ◌+◌, ◌<◌}
use mathlib.Core.Path.{◌≡◌}
use mathlib.Core.Bool.{Bool, true, false}
use mathlib.Core.List.{List, [], ◌∷◌, ◌++◌}
use native.Mathlib.Omega.{arith}
use haybarn_httpfs.Base.Tests.{◌==◌, if◌then◌else◌}

abbrev pub bit : Bool → ℕ
bit true = 1
bit false = 0

unfoldable pub count : ℕ → List ℕ → ℕ
count a [] = 0
count a (x ∷ xs) = bit (a == x) + count a xs

-- vector.erase(find(…)).
unfoldable pub remove : ℕ → List ℕ → List ℕ
remove a [] = []
remove a (x ∷ xs) = if a == x then xs else x ∷ remove a xs

pub count-append : (a : ℕ) (xs ys : List ℕ) → count a (xs ++ ys) ≡ count a xs + count a ys
unfolding count
count-append a [] ys = omega arith
count-append a (x ∷ xs) ys = omega (arith, count-append a xs ys)

pub count-remove :
    (b a : ℕ) (xs : List ℕ) → 0 < count a xs → count b (remove a xs) + bit (b == a) ≡ count b xs
unfolding count remove
count-remove b a [] h = absurd (omega arith)
count-remove b a (x ∷ xs) h = ground (arith, count-remove b a xs)
