-- ===== src/Base.antt =====
-- What the other modules share: names of the libraries, passed on, and helpers of the children.
pub mod Tests
pub mod Lists
pub mod Strings
pub mod Assoc
pub mod Numbered
pub mod Decimal
pub mod Slices
pub mod Search
pub mod Counts
unfoldable pub use Tests.*
unfoldable pub use Lists.*
unfoldable pub use Strings.*
unfoldable pub use Assoc.*
unfoldable pub use Numbered.*
unfoldable pub use Decimal.*
pub use Slices.*
unfoldable pub use Search.*
unfoldable pub use Counts.*
pub use Prim.Native.Nat.{ℕ, zero, suc, ◌+◌, ◌-◌, ◌*◌, ◌/◌, ◌%◌, ◌^◌, ◌≤◌, ◌<◌, min, max}
pub use mathlib.Core.Path.{◌≡◌, refl, sym, ap, ◌∙◌}
pub use mathlib.Core.Logic.{◌≢◌, ◌↔◌, ◌⊎◌, inl, inr}
pub use mathlib.Core.Bool.{Bool, true, false, ◌&&◌, ◌||◌, not}
pub use mathlib.Core.Option.{Option, none, some}
pub use mathlib.Core.List.{List, [], ◌∷◌, ◌++◌, map}
pub use native.Mathlib.Omega.{arith}

-- The first of two that is there.
abbrev pub or_else : Option Text → Option Text → Option Text
or_else none b = b
or_else (some v) b = some v

pub or_else-none : (first : Option Text) → or_else first none ≡ first
or_else-none none = refl
or_else-none (some v) = refl
