-- ===== src/S3/Glob/Segments.antt =====
-- What Match answers.
use mathlib.Core.Path.{subst}
use haybarn_httpfs.Base.{
  ◌≡◌, refl, sym, ap, ◌∙◌, ◌↔◌, inl, inr, Bool, true, false, ◌||◌, not, List, [], ◌∷◌, ◌++◌, arith,
  if◌then◌else◌, Bool-cases, Text, text_eq, text_eq_refl, text_eq_sound, is_empty,
}
use haybarn_httpfs.S3.Glob.{any_depth, any_suffix, match_segments}

-- What a pattern means: `**` at the end stands for one segment or more, and before another pattern for
-- any number of segments, with at least one left for that pattern.
pub data Matches (glob : Text → Text → Bool) : List Text → List Text → Type 0 where
  end : Matches glob [] []
  segment :
      (p k : Text) (pattern key : List Text)
      → text_eq p any_depth ≡ false
      → glob k p ≡ true
      → Matches glob pattern key
      → Matches glob (p ∷ pattern) (k ∷ key)
  last : (k : Text) (key : List Text) → Matches glob (any_depth ∷ []) (k ∷ key)
  deep :
      (before : List Text) (q k : Text) (pattern key : List Text)
      → Matches glob (q ∷ pattern) (k ∷ key)
      → Matches glob (any_depth ∷ q ∷ pattern) (before ++ (k ∷ key))

-- A suffix that any_suffix finds.
any_suffix-split :
    (f : List Text → Bool) (key : List Text)
    → any_suffix f key ≡ true
    → (before : List Text) × (k : Text) × (rest : List Text) × (key ≡ before ++ (k ∷ rest))
      × (f (k ∷ rest) ≡ true)
unfolding any_suffix
any_suffix-split f [] h = cc
any_suffix-split f (k ∷ key) h = elim (Bool-cases (f (k ∷ key))) [
  | inl here ↦ ([], k, key, refl, here)
  | inr not_here ↦
      let (before, j, rest, same, found) = any_suffix-split f key (ground (arith, h, not_here)) in
      (k ∷ before, j, rest, ap (λ l. k ∷ l) same, found)
]

any_suffix-finds :
    (f : List Text → Bool) (before : List Text) (k : Text) (rest : List Text)
    → f (k ∷ rest) ≡ true
    → any_suffix f (before ++ (k ∷ rest)) ≡ true
unfolding any_suffix
any_suffix-finds f [] k rest h = ground (arith, h)
any_suffix-finds f (b ∷ before) k rest h = ground (arith, any_suffix-finds f before k rest h)

first-holds : (b c : Bool) → (if not b then false else c) ≡ true → b ≡ true
first-holds true c h = refl
first-holds false c h = h

second-holds : (b c : Bool) → (if not b then false else c) ≡ true → c ≡ true
second-holds true c h = h
second-holds false c h = cc

or-false : (b : Bool) → (b || false) ≡ true → b ≡ true
or-false true h = refl
or-false false h = h

or-true : (b : Bool) → (b || true) ≡ true
or-true true = refl
or-true false = refl

module _ (glob : Text → Text → Bool) where
  abbrev matches : Bool → List Text → List Text → Bool
  matches completed pattern key = match_segments glob completed pattern key

  match_segments-deep :
      (completed : Bool) (q k : Text) (pattern key : List Text)
      → matches completed (any_depth ∷ q ∷ pattern) (k ∷ key)
        ≡ (any_suffix (λ suffix. matches completed (q ∷ pattern) suffix) (k ∷ key) || not completed)
  unfolding match_segments
  match_segments-deep completed q k pattern key = rw (text_eq_refl any_depth, match_segments) refl

  match_segments-segment :
      (completed : Bool) (p k : Text) (pattern key : List Text)
      → text_eq p any_depth ≡ false
      → matches completed (p ∷ pattern) (k ∷ key)
        ≡ (if not (glob k p) then false else matches completed pattern key)
  unfolding match_segments
  match_segments-segment completed p k pattern key other = rw (other, match_segments) refl

  match_segments_sound :
      (pattern key : List Text) → matches true pattern key ≡ true → Matches glob pattern key
  unfolding match_segments
  match_segments_sound [] [] h = end
  match_segments_sound [] (k ∷ key) h = cc
  match_segments_sound (p ∷ pattern) [] h = cc
  match_segments_sound (p ∷ []) (k ∷ key) h = elim (Bool-cases (text_eq p any_depth)) [
    | inl any ↦
        subst (λ d. Matches glob (d ∷ []) (k ∷ key)) (sym (text_eq_sound p any_depth any))
          (last k key)
    | inr other ↦
        let went = sym (match_segments-segment true p k [] key other) ∙ h in
        segment p k [] key other (first-holds (glob k p) _ went)
          (match_segments_sound [] key (second-holds (glob k p) _ went))
  ]
  match_segments_sound (p ∷ q ∷ pattern) (k ∷ key) h = elim (Bool-cases (text_eq p any_depth)) [
    | inl any ↦
        let is_any = text_eq_sound p any_depth any in
        let deeper = or-false (any_suffix (λ suffix. matches true (q ∷ pattern) suffix) (k ∷ key)) (
          sym (match_segments-deep true q k pattern key)
          ∙ subst (λ d. matches true (d ∷ q ∷ pattern) (k ∷ key) ≡ true) is_any h) in
        let (before, j, rest, same, found) =
          any_suffix-split (λ suffix. matches true (q ∷ pattern) suffix) (k ∷ key) deeper in
        subst (λ d. Matches glob (d ∷ q ∷ pattern) (k ∷ key)) (sym is_any)
          (subst (Matches glob (any_depth ∷ q ∷ pattern)) (sym same)
            (deep before q j pattern rest (match_segments_sound (q ∷ pattern) (j ∷ rest) found)))
    | inr other ↦
        let went = sym (match_segments-segment true p k (q ∷ pattern) key other) ∙ h in
        segment p k (q ∷ pattern) key other (first-holds (glob k p) _ went)
          (match_segments_sound (q ∷ pattern) key (second-holds (glob k p) _ went))
  ]

  match_segments_complete :
      (pattern key : List Text) → Matches glob pattern key → matches true pattern key ≡ true
  unfolding match_segments
  match_segments_complete _ _ end = refl
  match_segments_complete _ _ (segment p k pattern key other fits rest) =
      match_segments-segment true p k pattern key other
      ∙ rw fits (match_segments_complete pattern key rest)
  match_segments_complete _ _ (last k key) = rw (text_eq_refl any_depth, match_segments) refl
  match_segments_complete _ _ (deep before q k pattern key rest) =
      let found =
        any_suffix-finds (λ suffix. matches true (q ∷ pattern) suffix) before k key
          (match_segments_complete (q ∷ pattern) (k ∷ key) rest) in
      deep_somewhere before found
    where
      deep_somewhere :
          (b : List Text)
          → any_suffix (λ suffix. matches true (q ∷ pattern) suffix) (b ++ (k ∷ key)) ≡ true
          → matches true (any_depth ∷ q ∷ pattern) (b ++ (k ∷ key)) ≡ true
      deep_somewhere [] found = match_segments-deep true q k pattern key ∙ rw found refl
      deep_somewhere (j ∷ b) found =
          match_segments-deep true q j pattern (b ++ (k ∷ key)) ∙ rw found refl

  -- A complete key is answered by what the pattern means, for any Glob of a segment.
  pub match_segments-Matches :
      (pattern key : List Text)
      → (match_segments glob true pattern key ≡ true) ↔ Matches glob pattern key
  match_segments-Matches pattern key =
      (match_segments_sound pattern key, match_segments_complete pattern key)

  -- Pruning loses no key: the answer for the first segments of a key that matches is true before the
  -- key is complete.
  pub match_segments-prefix :
      (pattern key rest : List Text)
      → match_segments glob true pattern (key ++ rest) ≡ true
      → match_segments glob false pattern key ≡ true
  unfolding match_segments
  match_segments-prefix [] [] rest h = refl
  match_segments-prefix [] (k ∷ key) rest h = cc
  match_segments-prefix (p ∷ pattern) [] rest h = refl
  match_segments-prefix (p ∷ pattern) (k ∷ key) rest h = elim (Bool-cases (text_eq p any_depth)) [
    | inl any ↦ elim (Bool-cases (is_empty pattern)) [
      | inl at_end ↦ rw (any, at_end, match_segments) refl
      | inr more ↦ rw (any, more, match_segments) (or-true _)
    ]
    | inr other ↦
        let went = sym (match_segments-segment true p k pattern (key ++ rest) other) ∙ h in
        match_segments-segment false p k pattern key other
        ∙ rw (first-holds (glob k p) _ went)
            (match_segments-prefix pattern key rest (second-holds (glob k p) _ went))
  ]
