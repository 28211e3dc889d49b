-- ===== src/Base/Decimal.antt =====
-- Decimal numbers: std::to_string and std::stoull.
use Prim.Native.Nat.{ℕ, zero, suc, ◌+◌, ◌-◌, ◌*◌, ◌/◌, ◌%◌, ◌^◌, ◌<◌}
use mathlib.Core.Path.{◌≡◌, refl, ◌∙◌, ap}
use mathlib.Core.Logic.{inl, inr}
use mathlib.Core.Bool.{Bool, true, false, ◌&&◌, ◌||◌}
use mathlib.Core.List.{[], ◌∷◌, ◌++◌}
use mathlib.Core.Option.{Option, none, some}
use native.Mathlib.Omega.{arith}
use haybarn_httpfs.Base.Tests.{◌==◌, leb, ltb, if◌then◌else◌, Bool-cases}
use haybarn_httpfs.Base.Strings.{Text}

-- The digits of `n` before those of `rest`, on fuel.
unfoldable pub digits_onto : ℕ → ℕ → Text → Text
digits_onto zero n rest = rest
digits_onto (suc fuel) n rest =
    let more = digits_onto fuel (n / 10) ((48 + n % 10) ∷ rest) in
    if ltb n 10 then (48 + n) ∷ rest else more

unfoldable pub to_string : ℕ → Text
unfolding digits_onto
to_string n = digits_onto (suc n) n []

abbrev pub is_digit : ℕ → Bool
is_digit c = leb b'0' c && leb c b'9'

-- The value of the digits at the front, with `acc` for those before them.
unfoldable pub read_digits : ℕ → Text → ℕ
read_digits acc [] = acc
read_digits acc (c ∷ s) =
    let rest = read_digits (acc * 10 + (c - 48)) s in if is_digit c then rest else acc

abbrev pub is_space : ℕ → Bool
is_space c = c == 32 || (leb 9 c && leb c 13)

unfoldable pub skip_spaces : Text → Text
skip_spaces [] = []
skip_spaces (c ∷ s) = let rest = skip_spaces s in if is_space c then rest else c ∷ s

-- A value that does not fit 64 bits is std::out_of_range.
unfoldable pub read_unsigned : Text → Option ℕ
read_unsigned [] = none
read_unsigned (c ∷ s) =
    if is_digit c
    then (let v = read_digits 0 (c ∷ s) in if ltb v (2 ^ 64) then some v else none)
    else none

abbrev negated : Option ℕ → Option ℕ
negated none = none
negated (some v) = some ((2 ^ 64 - v) % 2 ^ 64)

unfoldable pub read_signed : Text → Option ℕ
unfolding read_unsigned
read_signed [] = none
read_signed (c ∷ s) =
    if c == b'+'
    then read_unsigned s
    else if c == b'-'
    then negated (read_unsigned s)
    else read_unsigned (c ∷ s)

-- std::stoull: leading space and a sign are allowed, what follows the digits is ignored; `none` when
-- it throws.
unfoldable pub stoull : Text → Option ℕ
unfolding skip_spaces read_signed
stoull s = read_signed (skip_spaces s)

-- What follows a number's digits and ends them.
abbrev pub stops : Text → Bool
stops [] = true
stops (c ∷ s) = if is_digit c then false else true

read_digits-stops : (acc : ℕ) (s : Text) → stops s ≡ true → read_digits acc s ≡ acc
unfolding read_digits
read_digits-stops acc [] h = refl
read_digits-stops acc (c ∷ s) h = ground arith

read_digits-digit :
    (acc d n : ℕ) (s : Text)
    → d < 10
    → n ≡ acc * 10 + d
    → read_digits acc ((48 + d) ∷ s) ≡ read_digits n s
unfolding read_digits
read_digits-digit acc d n s h e =
    let digit : is_digit (48 + d) ≡ true = ground arith in
    rw digit (ap (λ m. read_digits m s) (omega arith))

-- Reading back what `digits_onto` wrote, digit by digit.
pub read_digits-digits_onto :
    (fuel n : ℕ) (rest : Text)
    → n < fuel
    → read_digits 0 (digits_onto fuel n rest) ≡ read_digits n rest
unfolding digits_onto
read_digits-digits_onto zero n rest h = absurd (omega arith)
read_digits-digits_onto (suc fuel) n rest h = elim (Bool-cases (ltb n 10)) [
  | inl e ↦ rw e (read_digits-digit 0 n n rest (ground arith) (omega arith))
  | inr e ↦ rw e (
      read_digits-digits_onto fuel (n / 10) ((48 + n % 10) ∷ rest) (ground arith)
      ∙ read_digits-digit (n / 10) (n % 10) n rest (omega arith) (omega arith))
]

digits_onto-append :
    (fuel n : ℕ) (rest s : Text) → digits_onto fuel n rest ++ s ≡ digits_onto fuel n (rest ++ s)
unfolding digits_onto
digits_onto-append zero n rest s = refl
digits_onto-append (suc fuel) n rest s =
    ground (arith, digits_onto-append fuel (n / 10) ((48 + n % 10) ∷ rest) s)

-- A number is read back from its decimal form, up to what is no digit.
pub read_digits-to_string :
    (n : ℕ) (s : Text) → stops s ≡ true → read_digits 0 (to_string n ++ s) ≡ n
unfolding to_string
read_digits-to_string n s h =
    ap (read_digits 0) (digits_onto-append (suc n) n [] s)
    ∙ read_digits-digits_onto (suc n) n s (omega arith)
    ∙ read_digits-stops n s h

-- A text that begins with a digit.
abbrev pub leads : Text → Bool
leads [] = false
leads (c ∷ s) = is_digit c

digits_onto-leads : (fuel n : ℕ) (rest : Text) → n < fuel → leads (digits_onto fuel n rest) ≡ true
unfolding digits_onto
digits_onto-leads zero n rest h = absurd (omega arith)
digits_onto-leads (suc fuel) n rest h = elim (Bool-cases (ltb n 10)) [
  | inl e ↦ rw e (ground arith)
  | inr e ↦ rw e (digits_onto-leads fuel (n / 10) ((48 + n % 10) ∷ rest) (ground arith))
]

pub to_string-leads : (n : ℕ) → leads (to_string n) ≡ true
unfolding to_string
to_string-leads n = digits_onto-leads (suc n) n [] (omega arith)

stoull-leads :
    (s : Text)
    → leads s ≡ true
    → ltb (read_digits 0 s) (2 ^ 64) ≡ true
    → stoull s ≡ some (read_digits 0 s)
unfolding stoull skip_spaces read_signed read_unsigned
stoull-leads [] h l = cc
stoull-leads (c ∷ s) h l =
    let space : is_space c ≡ false = ground arith in
    let plus : (c == b'+') ≡ false = ground arith in
    let minus : (c == b'-') ≡ false = ground arith in rw (space, plus, minus, h, l) refl

-- A number of 64 bits is read back from its decimal form.
pub stoull-to_string : (n : ℕ) → n < 2 ^ 64 → stoull (to_string n) ≡ some n
unfolding to_string
stoull-to_string n h =
    let read : read_digits 0 (to_string n) ≡ n =
      read_digits-digits_onto (suc n) n [] (omega arith) ∙ read_digits-stops n [] refl in
    stoull-leads (to_string n) (to_string-leads n) (rw read (ground arith)) ∙ ap some read
