-- ===== src/S3/Xml/Prefixes.antt =====
-- ParseCommonPrefix ends.
use haybarn_httpfs.Base.{
  ℕ, zero, suc, ◌+◌, ◌≤◌, ◌<◌, ◌≡◌, refl, ◌⊎◌, inl, inr, Option, none, some, List, [], ◌∷◌, ◌++◌,
  arith, Option-cases, length, Text, codes, find,
}
use haybarn_httpfs.Http.Types.{internal, out_of_fuel, Exception, Result, ok, throw, plain}
use haybarn_httpfs.S3.Xml.{next_common_prefix, parse_prefixes, parse_common_prefix}
use haybarn_httpfs.S3.Xml.Tags.{find-split}

next-cases :
    (next : Result (Option (Text × ℕ)))
    → ((e : Exception) × (next ≡ throw e))
      ⊎ ((next ≡ ok none) ⊎ ((c : Text) × (n : ℕ) × (next ≡ ok (some (c, n)))))
next-cases (throw e) = inl (e, refl)
next-cases (ok none) = inr (inl refl)
next-cases (ok (some (c, n))) = inr (inr (c, n, refl))

-- A round goes forward, inside the response.
next_common_prefix-forward :
    (response : Text) (cur_pos : ℕ) (parsed_path : Text) (next_pos : ℕ)
    → next_common_prefix response cur_pos ≡ ok (some (parsed_path, next_pos))
    → (cur_pos < next_pos) × (next_pos ≤ length response)
unfolding next_common_prefix
next_common_prefix-forward response cur_pos parsed_path next_pos h =
    elim (Option-cases (find response (codes "<CommonPrefixes>") cur_pos)) [
      | inl e ↦ absurd (ground (arith, e))
      | inr (i, e) ↦ elim (Option-cases (find response (codes "<Prefix>") i)) [
        | inl f ↦ absurd (ground (arith, e, f))
        | inr (j, f) ↦ elim (Option-cases (find response (codes "</Prefix>") (j + 8))) [
          | inl g ↦ absurd (ground (arith, e, f, g))
          | inr (k, g) ↦
              let at : next_pos ≡ k + 6 = ground (arith, e, f, g) in
              let (a, _, _) = find-split response (codes "<CommonPrefixes>") cur_pos i e in
              let (b, _, _) = find-split response (codes "<Prefix>") i j f in
              let (c, _, d) = find-split response (codes "</Prefix>") (j + 8) k g in
              (omega arith, omega arith)
        ]
      ]
    ]

parse_prefixes-round :
    (spent : Result (List Text)) (fuel : ℕ) (response : Text) (cur_pos : ℕ)
    (s3_prefixes : List Text)
    → parse_prefixes spent (suc fuel) response cur_pos s3_prefixes
      ≡ elim (next_common_prefix response cur_pos) [
        | throw e ↦ throw e
        | ok none ↦ ok s3_prefixes
        | ok (some (parsed_path, next_pos)) ↦
            parse_prefixes spent fuel response next_pos (s3_prefixes ++ parsed_path ∷ [])
      ]
unfolding parse_prefixes
parse_prefixes-round spent fuel response cur_pos s3_prefixes = refl

parse_prefixes-fuel :
    (spent other : Result (List Text)) (fuel more : ℕ) (response : Text) (cur_pos : ℕ)
    (s3_prefixes : List Text)
    → length response ≤ fuel + cur_pos
    → fuel ≤ more
    → parse_prefixes spent (suc more) response cur_pos s3_prefixes
      ≡ parse_prefixes other (suc fuel) response cur_pos s3_prefixes
parse_prefixes-fuel spent other zero more response cur_pos s3_prefixes enough le =
    rw
      (
        parse_prefixes-round spent more response cur_pos s3_prefixes,
        parse_prefixes-round other 0 response cur_pos s3_prefixes,
      )
      (elim (next-cases (next_common_prefix response cur_pos)) [
        | inl (e, p) ↦ rw p refl
        | inr (inl p) ↦ rw p refl
        | inr (inr (c, n, p)) ↦
            absurd (omega (arith, next_common_prefix-forward response cur_pos c n p))
      ])
parse_prefixes-fuel spent other (suc fuel) zero response cur_pos s3_prefixes enough le =
    absurd (omega arith)
parse_prefixes-fuel spent other (suc fuel) (suc more) response cur_pos s3_prefixes enough le =
    rw
      (
        parse_prefixes-round spent (suc more) response cur_pos s3_prefixes,
        parse_prefixes-round other (suc fuel) response cur_pos s3_prefixes,
      )
      (elim (next-cases (next_common_prefix response cur_pos)) [
        | inl (e, p) ↦ rw p refl
        | inr (inl p) ↦ rw p refl
        | inr (inr (c, n, p)) ↦
            let (forward, _) = next_common_prefix-forward response cur_pos c n p in
            rw p (
              parse_prefixes-fuel spent other fuel more response n (s3_prefixes ++ c ∷ [])
                (omega arith) (omega arith))
      ])

-- The loop of ParseCommonPrefix ends: with any fuel above the length of the response, and whatever
-- stands for spent fuel, it gives the result of ParseCommonPrefix.
pub parse_common_prefix-ends :
    (spent : Result (List Text)) (fuel : ℕ) (response : Text)
    → length response < fuel
    → parse_prefixes spent fuel response 0 [] ≡ parse_common_prefix response
unfolding parse_common_prefix
parse_common_prefix-ends spent zero response h = absurd (omega arith)
parse_common_prefix-ends spent (suc fuel) response h =
    parse_prefixes-fuel spent (throw (plain internal out_of_fuel)) (length response) fuel response 0
      [] (omega arith) (omega arith)
