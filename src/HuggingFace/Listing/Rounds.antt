-- ===== src/HuggingFace/Listing/Rounds.antt =====
-- The scan with enough fuel: its rounds, and what it passes over.
use haybarn_httpfs.Base.{
  ℕ, zero, suc, ◌≤◌, ◌<◌, ◌≡◌, refl, ◌∙◌, inl, inr, Bool, true, false, ◌&&◌, ◌||◌, not, [], ◌∷◌,
  ◌++◌, arith, ltb, ◌==◌, if◌then◌else◌, length, length-drop, Text, starts_with,
}
use haybarn_httpfs.Http.Types.{Result, ok, throw, Result-cases}
use haybarn_httpfs.HuggingFace.Listing.{
  Label, base, entry, pathname, Scan, type_directory, type_file, path_key, is_unknown, step, scan,
}

abbrev Shortens : ℕ → Result (Label × Scan × Text) → Type 0
Shortens n (throw e) = Unit
Shortens n (ok (label, s, rest)) = length rest ≤ n

Shortens-if :
    (n : ℕ) (test : Bool) (a b : Result (Label × Scan × Text))
    → Shortens n a
    → Shortens n b
    → Shortens n (if test then a else b)
Shortens-if n true a b h k = h
Shortens-if n false a b h k = k

-- A round that goes on has less input left.
step-Shortens :
    (label : Label) (s : Scan) (c : ℕ) (rest : Text) → Shortens (length rest) (step label s c rest)
unfolding step
step-Shortens base s c rest = omega arith
step-Shortens entry s c rest =
    let n = length rest in
    Shortens-if n (c == b'}') _ _
      (Shortens-if n (ltb 0 s.nested) _ _ (omega arith)
        (Shortens-if n (not s.found_path || is_unknown s.type) _ _ tt (omega arith)))
      (Shortens-if n (c == b'{') _ _ (omega arith) (
        Shortens-if n (starts_with (c ∷ rest) type_directory) _ _
          (omega (arith, length-drop 17 rest))
          (Shortens-if n (starts_with (c ∷ rest) type_file) _ _ (omega (arith, length-drop 12 rest))
            (Shortens-if n (starts_with (c ∷ rest) path_key) _ _ (omega (arith, length-drop 7 rest))
              (omega arith)))))
step-Shortens pathname s c rest = ground (arith, length-drop 1 rest)

-- Two fuels that are above the length of the input give one result.
pub scan-fuel :
    (fuel more : ℕ) (label : Label) (s : Scan) (input : Text)
    → length input < fuel
    → length input < more
    → scan fuel label s input ≡ scan more label s input
unfolding scan
scan-fuel zero more label s input h k = absurd (omega arith)
scan-fuel (suc fuel) zero label s input h k = absurd (omega arith)
scan-fuel (suc fuel) (suc more) label s [] h k = refl
scan-fuel (suc fuel) (suc more) label s (c ∷ rest) h k =
    let shorter = step-Shortens label s c rest in
    elim (Result-cases (step label s c rest)) [
      | inr (e, p) ↦ rw (p, scan) refl
      | inl ((label', s', rest'), p) ↦
          rw (p, scan) (scan-fuel fuel more label' s' rest' (ground (arith, p)) (ground (arith, p)))
    ]

-- The scan with enough fuel, and one round of it.
abbrev pub run : Label → Scan → Text → Result Scan
run label s input = scan (suc (length input)) label s input

pub run-step :
    (label label' : Label) (s s' : Scan) (c : ℕ) (rest rest' : Text)
    → step label s c rest ≡ ok (label', s', rest')
    → run label s (c ∷ rest) ≡ run label' s' rest'
unfolding scan
run-step label label' s s' c rest rest' e =
    let shorter = step-Shortens label s c rest in
    rw (e, scan)
      (scan-fuel (suc (length rest)) (suc (length rest')) label' s' rest' (ground (arith, e))
        (omega arith))

-- Text of an entry in which the scan stops nowhere.
abbrev pub opens_no_key : Text → Bool
opens_no_key [] = false
opens_no_key (c ∷ s) = not (c == b't') && not (c == b'p')

abbrev pub is_quiet : Text → Bool
is_quiet [] = true
is_quiet (c ∷ s) =
    not (c == b'{') && (not (c == b'}') && (not (c == b'"') || opens_no_key s)) && is_quiet s

step-quiet :
    (s : Scan) (c : ℕ) (q rest : Text)
    → is_quiet (c ∷ q) ≡ true
    → step entry s c (q ++ rest) ≡ ok (entry, s, q ++ rest)
unfolding step
step-quiet s c [] rest h = ground arith
step-quiet s c (d ∷ q) rest h = ground arith

pub run-quiet :
    (s : Scan) (q rest : Text) → is_quiet q ≡ true → run entry s (q ++ rest) ≡ run entry s rest
run-quiet s [] rest h = refl
run-quiet s (c ∷ q) rest h =
    run-step entry entry s s c (q ++ rest) (q ++ rest) (step-quiet s c q rest h)
    ∙ run-quiet s q rest (ground arith)
