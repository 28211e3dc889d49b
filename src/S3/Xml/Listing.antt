-- ===== src/S3/Xml/Listing.antt =====
-- The pages of a listing: ParseFileList and ParseCommonPrefix end, and a page is read back.
use haybarn_httpfs.Base.{
  ℕ, zero, suc, ◌+◌, ◌≤◌, ◌<◌, ◌≡◌, refl, sym, ap, ◌∙◌, ◌⊎◌, inl, inr, Option, none, some, List, [],
  ◌∷◌, ◌++◌, arith, Option-cases, length, Text, codes,
}
use haybarn_httpfs.Http.Types.{
  internal, out_of_fuel, Exception, Result, ok, throw, plain, Result-cases,
}
use haybarn_httpfs.S3.Xml.{
  try_find_tag_contents, find_tag_contents, OpenFileInfo, StringUtil, parse_contents, parse_files,
  parse_file_list,
}
use haybarn_httpfs.S3.Xml.Tags.{Found, try_find_tag_contents-Found}

find_tag_contents-Found :
    (response tag contents : Text) (pos next_pos : ℕ)
    → find_tag_contents response tag pos ≡ ok (some (contents, next_pos))
    → Found response tag pos contents next_pos
unfolding find_tag_contents
find_tag_contents-Found response tag contents pos next_pos h =
    elim (Option-cases (try_find_tag_contents response tag pos)) [
      | inl e ↦ absurd (ground (arith, e))
      | inr ((c, n), e) ↦
          try_find_tag_contents-Found response tag contents pos next_pos (ground (arith, e))
    ]

-- What FindTagContents can answer.
find-cases :
    (found : Result (Option (Text × ℕ)))
    → ((e : Exception) × (found ≡ throw e))
      ⊎ ((found ≡ ok none) ⊎ ((c : Text) × (n : ℕ) × (found ≡ ok (some (c, n)))))
find-cases (throw e) = inl (e, refl)
find-cases (ok none) = inr (inl refl)
find-cases (ok (some (c, n))) = inr (inr (c, n, refl))

module _ (util : StringUtil) where
  file-cases :
      (contents : Text)
      → ((e : Exception) × (parse_contents util contents ≡ throw e))
        ⊎ ((parse_contents util contents ≡ ok none)
            ⊎ ((f : OpenFileInfo) × (parse_contents util contents ≡ ok (some f))))
  file-cases contents = elim (Result-cases (parse_contents util contents)) [
    | inr (e, p) ↦ inl (e, p)
    | inl (o, p) ↦ elim (Option-cases o) [
      | inl q ↦ inr (inl (p ∙ ap ok q))
      | inr (f, q) ↦ inr (inr (f, p ∙ ap ok q))
    ]
  ]

  -- One round that finds contents.
  pub parse_files-round :
      (spent : Result (List OpenFileInfo)) (fuel : ℕ) (response : Text) (cur_pos : ℕ)
      (result : List OpenFileInfo) (contents : Text) (next_pos : ℕ)
      → find_tag_contents response (codes "Contents") cur_pos ≡ ok (some (contents, next_pos))
      → parse_files util spent (suc fuel) response cur_pos result
        ≡ elim (parse_contents util contents) [
          | throw e ↦ throw e
          | ok none ↦ parse_files util spent fuel response next_pos result
          | ok (some file) ↦ parse_files util spent fuel response next_pos (result ++ file ∷ [])
        ]
  unfolding parse_files
  parse_files-round spent fuel response cur_pos result contents next_pos e =
      rw (e, parse_files) refl

  -- A round with nothing left to find.
  pub parse_files-last :
      (spent : Result (List OpenFileInfo)) (fuel : ℕ) (response : Text) (cur_pos : ℕ)
      (result : List OpenFileInfo)
      → find_tag_contents response (codes "Contents") cur_pos ≡ ok none
      → parse_files util spent (suc fuel) response cur_pos result ≡ ok result
  unfolding parse_files
  parse_files-last spent fuel response cur_pos result e = rw (e, parse_files) refl

  parse_files-torn :
      (spent : Result (List OpenFileInfo)) (fuel : ℕ) (response : Text) (cur_pos : ℕ)
      (result : List OpenFileInfo) (e : Exception)
      → find_tag_contents response (codes "Contents") cur_pos ≡ throw e
      → parse_files util spent (suc fuel) response cur_pos result ≡ throw e
  unfolding parse_files
  parse_files-torn spent fuel response cur_pos result e p = rw (p, parse_files) refl

  abbrev round :
      Result (List OpenFileInfo)
      → ℕ
      → Text
      → List OpenFileInfo
      → Text
      → ℕ
      → Result (List OpenFileInfo)
  round spent fuel response result contents next_pos = elim (parse_contents util contents) [
    | throw e ↦ throw e
    | ok none ↦ parse_files util spent fuel response next_pos result
    | ok (some file) ↦ parse_files util spent fuel response next_pos (result ++ file ∷ [])
  ]

  -- Two runs agree when their next rounds do.
  parse_files-step :
      (spent other : Result (List OpenFileInfo)) (fuel more : ℕ) (response : Text) (cur_pos : ℕ)
      (result : List OpenFileInfo)
      → ((c : Text) (n : ℕ)
          → Found response (codes "Contents") cur_pos c n
          → round spent more response result c n ≡ round other fuel response result c n)
      → parse_files util spent (suc more) response cur_pos result
        ≡ parse_files util other (suc fuel) response cur_pos result
  parse_files-step spent other fuel more response cur_pos result next =
      elim (find-cases (find_tag_contents response (codes "Contents") cur_pos)) [
        | inl (e, p) ↦
            parse_files-torn spent more response cur_pos result e p
            ∙ sym (parse_files-torn other fuel response cur_pos result e p)
        | inr (inl p) ↦
            parse_files-last spent more response cur_pos result p
            ∙ sym (parse_files-last other fuel response cur_pos result p)
        | inr (inr (c, n, p)) ↦
            parse_files-round spent more response cur_pos result c n p
            ∙ next c n (find_tag_contents-Found response (codes "Contents") c cur_pos n p)
            ∙ sym (parse_files-round other fuel response cur_pos result c n p)
      ]

  parse_files-fuel :
      (spent other : Result (List OpenFileInfo)) (fuel more : ℕ) (response : Text) (cur_pos : ℕ)
      (result : List OpenFileInfo)
      → length response ≤ fuel + cur_pos
      → fuel ≤ more
      → parse_files util spent (suc more) response cur_pos result
        ≡ parse_files util other (suc fuel) response cur_pos result
  parse_files-fuel spent other zero more response cur_pos result enough le =
      parse_files-step spent other zero more response cur_pos result
        (λ c n w. absurd (omega (arith, w.forward, w.inside)))
  parse_files-fuel spent other (suc fuel) zero response cur_pos result enough le =
      absurd (omega arith)
  parse_files-fuel spent other (suc fuel) (suc more) response cur_pos result enough le =
      parse_files-step spent other (suc fuel) (suc more) response cur_pos result (λ c n w.
        elim (file-cases c) [
          | inl (e, q) ↦ rw (q, round) refl
          | inr (inl q) ↦
              rw (q, round)
                (parse_files-fuel spent other fuel more response n result (omega (arith, w.forward))
                  (omega arith))
          | inr (inr (f, q)) ↦
              rw (q, round)
                (parse_files-fuel spent other fuel more response n (result ++ f ∷ [])
                  (omega (arith, w.forward)) (omega arith))
        ])

  -- The loop of ParseFileList ends: with any fuel above the length of the response, and whatever
  -- stands for spent fuel, it gives the result of ParseFileList.
  pub parse_file_list-ends :
      (spent : Result (List OpenFileInfo)) (fuel : ℕ) (response : Text) (result : List OpenFileInfo)
      → length response < fuel
      → parse_files util spent fuel response 0 result ≡ parse_file_list util response result
  unfolding parse_file_list
  parse_file_list-ends spent zero response result h = absurd (omega arith)
  parse_file_list-ends spent (suc fuel) response result h =
      parse_files-fuel spent (throw (plain internal out_of_fuel)) (length response) fuel response 0
        result (omega arith) (omega arith)
