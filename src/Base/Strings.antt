-- ===== src/Base/Strings.antt =====
-- std::string as a list of character codes: comparison, search and slices.
use Prim.Native.Nat.{ℕ, zero, suc, ◌+◌, ◌-◌, ◌≤◌, ◌<◌}
use Prim.Native.Char.{code}
use Prim.Native.String.{String}
use mathlib.Core.Path.{◌≡◌, refl, ap}
use mathlib.Core.Logic.{◌↔◌, inl, inr}
use mathlib.Core.Bool.{Bool, true, false, ◌&&◌}
use mathlib.Core.List.{List, [], ◌∷◌, ◌++◌}
use mathlib.Core.Option.{Option, none, some}
use mathlib.Core.Option
use native.Mathlib.Omega.{arith}
use haybarn_httpfs.Base.Tests.{leb, ◌==◌, if◌then◌else◌, Bool-cases}
use haybarn_httpfs.Base.Lists.{length, take, drop, length-append}

abbrev pub Text : Type 0
Text = List ℕ

abbrev pub codes : String → Text
codes String.[] = []
codes (String.◌∷◌ c s) = code c ∷ codes s

unfoldable pub text_eq : Text → Text → Bool
text_eq [] [] = true
text_eq (c ∷ s) (d ∷ t) = c == d && text_eq s t
text_eq _ _ = false

pub text_eq_refl : (s : Text) → text_eq s s ≡ true
unfolding text_eq
text_eq_refl [] = refl
text_eq_refl (c ∷ s) = ground (arith, text_eq_refl s)

pub text_eq_sound : (s t : Text) → text_eq s t ≡ true → s ≡ t
unfolding text_eq
text_eq_sound [] [] h = refl
text_eq_sound (c ∷ s) (d ∷ t) h = ground (arith, text_eq_sound s t)
text_eq_sound [] (d ∷ t) h = cc
text_eq_sound (c ∷ s) [] h = cc

pub text_eq_iff : (s t : Text) → (text_eq s t ≡ true) ↔ (s ≡ t)
text_eq_iff s t = (text_eq_sound s t, λ e. rw e (text_eq_refl t))

abbrev pub is_empty {ℓ} : {A : Type ℓ} → List A → Bool
is_empty [] = true
is_empty (c ∷ s) = false

unfoldable pub starts_with : Text → Text → Bool
starts_with s [] = true
starts_with [] (d ∷ t) = false
starts_with (c ∷ s) (d ∷ t) = c == d && starts_with s t

pub starts_with-append : (s t : Text) → starts_with (s ++ t) s ≡ true
unfolding starts_with
starts_with-append [] t = refl
starts_with-append (c ∷ s) t = ground (arith, starts_with-append s t)

-- A prefix splits its text.
pub starts_with-split : (s t : Text) → starts_with s t ≡ true → s ≡ t ++ drop (length t) s
unfolding starts_with
starts_with-split s [] h = refl
starts_with-split [] (d ∷ t) h = cc
starts_with-split (c ∷ s) (d ∷ t) h = ground (arith, starts_with-split s t)

pub starts_with-length : (s t : Text) → starts_with s t ≡ true → length t ≤ length s
unfolding starts_with
starts_with-length s [] h = omega arith
starts_with-length [] (d ∷ t) h = cc
starts_with-length (c ∷ s) (d ∷ t) h = ground (arith, starts_with-length s t)

-- The first position of a text in another; `none` is std::string::npos.
unfoldable pub find_first : Text → Text → Option ℕ
unfolding starts_with
find_first [] t = if starts_with [] t then some 0 else none
find_first (c ∷ s) t = if starts_with (c ∷ s) t then some 0 else Option.map suc (find_first s t)

-- std::string::find with a start position.
unfoldable pub find : Text → Text → ℕ → Option ℕ
unfolding find_first
find s t pos = Option.map (λ k. pos + k) (find_first (drop pos s) t)

unfoldable pub substr : Text → ℕ → ℕ → Text
substr s pos count = take count (drop pos s)

pub find_first-starts :
    (s t : Text) {k : ℕ} → find_first s t ≡ some k → starts_with (drop k s) t ≡ true
unfolding find_first
find_first-starts [] t {k = zero} h = ground arith
find_first-starts [] t {k = suc k} h = ground arith
find_first-starts (c ∷ s) t {k = zero} h = elim (Bool-cases (starts_with (c ∷ s) t)) [
  | inl e ↦ e
  | inr e ↦ absurd (ground arith)
]
find_first-starts (c ∷ s) t {k = suc k} h = ground (arith, find_first-starts s t {k = k})

pub find_first-le : (s t : Text) {k : ℕ} → find_first s t ≡ some k → k ≤ length s
unfolding find_first
find_first-le [] t h = ground arith
find_first-le (c ∷ s) t {k = zero} h = omega arith
find_first-le (c ∷ s) t {k = suc k} h = ground (arith, find_first-le s t {k = k})

-- No earlier position fits.
pub find_first-least :
    (s t : Text) {k : ℕ} (j : ℕ)
    → find_first s t ≡ some k
    → j < k
    → starts_with (drop j s) t ≡ false
unfolding find_first
find_first-least [] t {k} j h l = ground arith
find_first-least (c ∷ s) t {k = zero} j h l = absurd (omega arith)
find_first-least (c ∷ s) t {k = suc k} zero h l = ground arith
find_first-least (c ∷ s) t {k = suc k} (suc j) h l = ground (arith, find_first-least s t {k = k} j)

-- `none` means that no position fits.
pub find_first-none :
    (s t : Text) (j : ℕ) → find_first s t ≡ none → j ≤ length s → starts_with (drop j s) t ≡ false
unfolding find_first
find_first-none [] t zero h l = ground arith
find_first-none [] t (suc j) h l = absurd (omega arith)
find_first-none (c ∷ s) t zero h l = ground arith
find_first-none (c ∷ s) t (suc j) h l = ground (arith, find_first-none s t j)

-- StringUtil::EndsWith.
unfoldable pub ends_with : Text → Text → Bool
unfolding text_eq
ends_with s t = leb (length t) (length s) && text_eq (drop (length s - length t) s) t

drop-prefix : (n : ℕ) (s t : Text) → n ≡ length s → drop n (s ++ t) ≡ t
drop-prefix zero [] t e = refl
drop-prefix zero (c ∷ s) t e = absurd (omega arith)
drop-prefix (suc n) [] t e = absurd (omega arith)
drop-prefix (suc n) (c ∷ s) t e = drop-prefix n s t (omega arith)

pub ends_with-append : (s t : Text) → ends_with (s ++ t) t ≡ true
unfolding ends_with
ends_with-append s t =
    let size = length-append s t in
    let rest = drop-prefix (length (s ++ t) - length t) s t (omega arith) in
    ground (arith, size, ap (λ l. text_eq l t) rest, text_eq_refl t)
