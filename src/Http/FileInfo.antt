-- ===== src/Http/FileInfo.antt =====
-- The size of a file in the headers of a response (TryParseContentRange and TryParseContentLength in
-- httpfs.cpp).
mod Sizes
mod Tests
use haybarn_httpfs.Base.{
  ℕ, suc, Option, none, some, List, ltb, if◌then◌else◌, length, drop, Text, codes, text_eq,
  find_first, lookup, stoull,
}
use mathlib.Core.Option

abbrev pub content_range : Text
content_range = codes "Content-Range"

abbrev pub content_length : Text
content_length = codes "Content-Length"

abbrev pub slash : Text
slash = codes "/"

abbrev pub star : Text
star = codes "*"

-- `optional_idx` is DuckDB's constructor of that class, `none` when it throws. The code catches what it
-- and std::stoull throw.
module _ (optional_idx : ℕ → Option ℕ) where
  abbrev pub parse_size : Text → Option ℕ
  parse_size s = elim (stoull s) [ none ↦ none | some n ↦ optional_idx n ]

  unfoldable pub range_size : Text → Option ℕ
  range_size s = elim (find_first s slash) [
    | none ↦ none
    | some k ↦
        if ltb (length s) (suc k)
        then none
        else (let range_length = drop (suc k) s in
            if text_eq range_length star then none else parse_size range_length)
  ]

  unfoldable pub try_parse_content_range : List (Text × Text) → Option ℕ
  unfolding range_size
  try_parse_content_range headers = elim (lookup content_range headers) [
    | none ↦ none
    | some s ↦ range_size s
  ]

  unfoldable pub try_parse_content_length : List (Text × Text) → Option ℕ
  try_parse_content_length headers = elim (lookup content_length headers) [
    | none ↦ none
    | some s ↦ parse_size s
  ]
