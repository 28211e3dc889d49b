-- ===== src/HuggingFace/Glob/Matches.antt =====
-- Match of hffs.cpp against Match of s3fs.cpp.
use haybarn_httpfs.Base.{◌≡◌, refl, ◌↔◌, Bool, true, List, [], ◌∷◌, arith, Text}
use haybarn_httpfs.S3.Glob.{any_suffix, match_segments}
use haybarn_httpfs.S3.Glob.Segments.{Matches, match_segments-Matches}
use haybarn_httpfs.HuggingFace.Glob.{match_key}

any_suffix-congr :
    (f g : List Text → Bool) (key : List Text)
    → ((suffix : List Text) → f suffix ≡ g suffix)
    → any_suffix f key ≡ any_suffix g key
unfolding any_suffix
any_suffix-congr f g [] h = refl
any_suffix-congr f g (k ∷ key) h = ground (arith, h (k ∷ key), any_suffix-congr f g key h)

module _ (glob : Text → Text → Bool) where
  match_key-segments :
      (pattern key : List Text) → match_key glob pattern key ≡ match_segments glob true pattern key
  unfolding match_key match_segments
  match_key-segments [] [] = refl
  match_key-segments [] (k ∷ key) = refl
  match_key-segments (p ∷ pattern) [] = refl
  match_key-segments (p ∷ pattern) (k ∷ key) =
      let deeper =
        any_suffix-congr (λ suffix. match_key glob pattern suffix)
          (λ suffix. match_segments glob true pattern suffix) (k ∷ key)
          (λ suffix. match_key-segments pattern suffix) in
      ground (arith, deeper, match_key-segments pattern key)

  -- A key matches a pattern of the Hugging Face file system exactly when it matches it for S3, and both
  -- are what the relation says.
  pub match_key-Matches :
      (pattern key : List Text)
      → (match_key glob pattern key ≡ match_segments glob true pattern key)
        × ((match_key glob pattern key ≡ true) ↔ Matches glob pattern key)
  match_key-Matches pattern key = (
    match_key-segments pattern key,
    rw (match_key-segments pattern key) (match_segments-Matches glob pattern key),
  )
