-- ===== src/Base/Numbered.antt =====
-- Maps keyed by numbers (std::unordered_map<uint16_t, ...>) as association lists.
use Prim.Native.Nat.{ℕ}
use mathlib.Core.Bool.{Bool, true, false}
use mathlib.Core.Option.{Option, none, some}
use mathlib.Core.List.{List, [], ◌∷◌}
use haybarn_httpfs.Base.Tests.{if◌then◌else◌, ◌==◌}

module _ {ℓ} {V : Type ℓ} where
  unfoldable pub lookup_number : ℕ → List (ℕ × V) → Option V
  lookup_number k [] = none
  lookup_number k ((j, v) ∷ m) = if j == k then some v else lookup_number k m

  unfoldable pub erase_number : ℕ → List (ℕ × V) → List (ℕ × V)
  erase_number k [] = []
  erase_number k ((j, v) ∷ m) =
      let rest = erase_number k m in if j == k then rest else (j, v) ∷ rest

  abbrev pub contains_number : ℕ → List (ℕ × V) → Bool
  contains_number k m = elim (lookup_number k m) [ none ↦ false | some v ↦ true ]

  abbrev pub values : List (ℕ × V) → List V
  values [] = []
  values ((k, v) ∷ m) = v ∷ values m
