-- ===== src/S3/Glob/Tests.antt =====
-- Keys against the pattern a/**/c.
use haybarn_httpfs.Base.{◌≡◌, refl, ◌↔◌, Bool, true, false, List, [], ◌∷◌, Text, codes, text_eq}
use haybarn_httpfs.S3.Glob.{any_depth, match_segments}
use haybarn_httpfs.S3.Glob.Segments.{Matches, match_segments-Matches, match_segments-prefix}

-- Segments without wildcards.
abbrev same : Text → Text → Bool
same k p = text_eq k p

abbrev pattern : List Text
pattern = codes "a" ∷ any_depth ∷ codes "c" ∷ []

abbrev key : List Text
key = codes "a" ∷ codes "b" ∷ codes "c" ∷ []

key_matches : match_segments same true pattern key ≡ true
unfolding match_segments
key_matches = refl

match_segments-Matches_example :
    (match_segments same true pattern key ≡ true) ↔ Matches same pattern key
match_segments-Matches_example = match_segments-Matches same pattern key

match_segments-prefix_example :
    match_segments same false pattern (codes "a" ∷ codes "b" ∷ []) ≡ true
match_segments-prefix_example =
    match_segments-prefix same pattern (codes "a" ∷ codes "b" ∷ []) (codes "c" ∷ []) key_matches
