-- ===== src/Base/Lists.antt =====
-- Lists measured and indexed by native numbers, under the library's names.
use Prim.Native.Nat.{ℕ, zero, suc, ◌+◌, ◌-◌, ◌<◌, ◌≤◌, min}
use mathlib.Core.Path.{◌≡◌, refl, ap}
use mathlib.Core.Logic.{◌≢◌}
use mathlib.Core.List.{List, [], ◌∷◌, ◌++◌, map}
use mathlib.Core.Option.{Option, none, some}
use native.Mathlib.Omega.{arith}

module _ {ℓ} {A : Type ℓ} where
  abbrev pub length : List A → ℕ
  length [] = 0
  length (x ∷ xs) = suc (length xs)

  abbrev pub get_elem? : List A → ℕ → Option A
  get_elem? [] i = none
  get_elem? (x ∷ xs) zero = some x
  get_elem? (x ∷ xs) (suc i) = get_elem? xs i

  -- A write out of bounds changes nothing.
  abbrev pub set : List A → ℕ → A → List A
  set [] i v = []
  set (x ∷ xs) zero v = v ∷ xs
  set (x ∷ xs) (suc i) v = x ∷ set xs i v

  pub length-append : (xs ys : List A) → length (xs ++ ys) ≡ length xs + length ys
  length-append [] ys = omega arith
  length-append (x ∷ xs) ys = omega (arith, length-append xs ys)

module _ {ℓ} {A : Type ℓ} where
  pub length-set : (xs : List A) (i : ℕ) (v : A) → length (set xs i v) ≡ length xs
  length-set [] i v = refl
  length-set (x ∷ xs) zero v = refl
  length-set (x ∷ xs) (suc i) v = ap suc (length-set xs i v)

  pub get_elem?-set_self :
      (xs : List A) (i : ℕ) (v : A) → i < length xs → get_elem? (set xs i v) i ≡ some v
  get_elem?-set_self [] i v h = elim h [ ]
  get_elem?-set_self (x ∷ xs) zero v h = refl
  get_elem?-set_self (x ∷ xs) (suc i) v h = get_elem?-set_self xs i v (omega arith)

  pub get_elem?-set_ne :
      (xs : List A) {i j : ℕ} (v : A) → i ≢ j → get_elem? (set xs i v) j ≡ get_elem? xs j
  get_elem?-set_ne [] v h = refl
  get_elem?-set_ne (x ∷ xs) {i = zero} {j = zero} v h = absurd (h refl)
  get_elem?-set_ne (x ∷ xs) {i = zero} {j = suc j} v h = refl
  get_elem?-set_ne (x ∷ xs) {i = suc i} {j = zero} v h = refl
  get_elem?-set_ne (x ∷ xs) {i = suc i} {j = suc j} v h = get_elem?-set_ne xs v (λ e. h (ap suc e))

module _ {ℓ} {A : Type ℓ} where
  abbrev pub get_or : List A → ℕ → A → A
  get_or [] i d = d
  get_or (x ∷ xs) zero d = x
  get_or (x ∷ xs) (suc i) d = get_or xs i d

  abbrev pub take : ℕ → List A → List A
  take zero xs = []
  take (suc n) [] = []
  take (suc n) (x ∷ xs) = x ∷ take n xs

  abbrev pub drop : ℕ → List A → List A
  drop zero xs = xs
  drop (suc n) [] = []
  drop (suc n) (x ∷ xs) = drop n xs

  abbrev pub replicate : ℕ → A → List A
  replicate zero a = []
  replicate (suc n) a = a ∷ replicate n a

  pub take-append-drop : (n : ℕ) (xs : List A) → take n xs ++ drop n xs ≡ xs
  take-append-drop zero xs = refl
  take-append-drop (suc n) [] = refl
  take-append-drop (suc n) (x ∷ xs) = rw (take-append-drop n xs)

  pub length-take : (n : ℕ) (xs : List A) → length (take n xs) ≡ min n (length xs)
  length-take zero xs = omega arith
  length-take (suc n) [] = omega arith
  length-take (suc n) (x ∷ xs) = omega (arith, length-take n xs)

  pub length-drop : (n : ℕ) (xs : List A) → length (drop n xs) ≡ length xs - n
  length-drop zero xs = omega arith
  length-drop (suc n) [] = omega arith
  length-drop (suc n) (x ∷ xs) = omega (arith, length-drop n xs)

  pub length-replicate : (n : ℕ) (a : A) → length (replicate n a) ≡ n
  length-replicate zero a = refl
  length-replicate (suc n) a = ap suc (length-replicate n a)

  pub length-map {κ} : {B : Type κ} (xs : List A) (f : A → B) → length (map f xs) ≡ length xs
  length-map [] f = refl
  length-map (x ∷ xs) f = ap suc (length-map xs f)

-- memcpy into an array: bytes that would fall out of bounds are not written.
module _ {ℓ} {A : Type ℓ} where
  unfoldable pub overwrite : List A → List A → List A
  overwrite [] old = old
  overwrite (y ∷ new) [] = []
  overwrite (y ∷ new) (x ∷ old) = y ∷ overwrite new old

  unfoldable pub splice : ℕ → List A → List A → List A
  unfolding overwrite
  splice zero new old = overwrite new old
  splice (suc o) new [] = []
  splice (suc o) new (x ∷ old) = x ∷ splice o new old

  pub length-overwrite : (new old : List A) → length (overwrite new old) ≡ length old
  unfolding overwrite
  length-overwrite [] old = refl
  length-overwrite (y ∷ new) [] = refl
  length-overwrite (y ∷ new) (x ∷ old) = ap suc (length-overwrite new old)

  pub length-splice : (o : ℕ) (new old : List A) → length (splice o new old) ≡ length old
  unfolding splice
  length-splice zero new old = length-overwrite new old
  length-splice (suc o) new [] = refl
  length-splice (suc o) new (x ∷ old) = ap suc (length-splice o new old)

  pub take-overwrite :
      (k : ℕ) (new old : List A)
      → k ≡ length new
      → k ≤ length old
      → take k (overwrite new old) ≡ new
  unfolding overwrite
  take-overwrite zero [] old e h = refl
  take-overwrite zero (y ∷ new) old e h = absurd (omega arith)
  take-overwrite (suc k) [] old e h = absurd (omega arith)
  take-overwrite (suc k) (y ∷ new) [] e h = absurd (omega arith)
  take-overwrite (suc k) (y ∷ new) (x ∷ old) e h =
      ap (λ l. y ∷ l) (take-overwrite k new old (omega arith) (omega arith))

  -- What precedes the write stays, and the bytes written follow.
  pub take-splice :
      (k o : ℕ) (new old : List A)
      → k ≡ o + length new
      → k ≤ length old
      → take k (splice o new old) ≡ take o old ++ new
  unfolding splice
  take-splice k zero new old e h = take-overwrite k new old (omega arith) h
  take-splice zero (suc o) new old e h = absurd (omega arith)
  take-splice (suc k) (suc o) new [] e h = absurd (omega arith)
  take-splice (suc k) (suc o) new (x ∷ old) e h =
      ap (λ l. x ∷ l) (take-splice k o new old (omega arith) (omega arith))

  pub take-all : (n : ℕ) (xs : List A) → length xs ≤ n → take n xs ≡ xs
  take-all zero [] h = refl
  take-all zero (x ∷ xs) h = absurd (omega arith)
  take-all (suc n) [] h = refl
  take-all (suc n) (x ∷ xs) h = ap (λ l. x ∷ l) (take-all n xs (omega arith))

  pub length-zero : (xs : List A) → length xs ≡ 0 → xs ≡ []
  length-zero [] h = refl
  length-zero (x ∷ xs) h = absurd (omega arith)

  -- The chunks of a transfer in order.
  unfoldable pub concat : List (List A) → List A
  concat [] = []
  concat (c ∷ cs) = c ++ concat cs
