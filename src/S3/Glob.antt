-- ===== src/S3/Glob.antt =====
-- Match (s3fs.cpp): a key against a glob pattern, both cut at the slashes. Before a key is complete the
-- answer says whether it can still become a match, which the hierarchical listing prunes by.
pub mod Segments
mod Tests
use haybarn_httpfs.Base.{
  Bool, true, false, ◌||◌, not, List, [], ◌∷◌, if◌then◌else◌, Text, codes, text_eq, is_empty,
}

abbrev pub any_depth : Text
any_depth = codes "**"

-- Whether a test holds of the list or of what is left behind its first elements, never of the empty list.
unfoldable pub any_suffix : (List Text → Bool) → List Text → Bool
any_suffix f [] = false
any_suffix f (k ∷ key) = f (k ∷ key) || any_suffix f key

-- Match; `glob` is DuckDB's Glob of a segment and its pattern.
unfoldable pub match_segments : (Text → Text → Bool) → Bool → List Text → List Text → Bool
unfolding any_suffix text_eq
match_segments glob completed [] [] = true
match_segments glob completed [] (k ∷ key) = false
match_segments glob completed (p ∷ pattern) [] = not completed
match_segments glob completed (p ∷ pattern) (k ∷ key) =
    let deeper = any_suffix (λ suffix. match_segments glob completed pattern suffix) (k ∷ key) in
    let next = match_segments glob completed pattern key in
    if text_eq p any_depth
    then (if is_empty pattern then true else deeper || not completed)
    else if not (glob k p)
    then false
    else next
