-- ===== src/Http/FileInfo/Tests.antt =====
-- Runs of the header parsing.
use haybarn_httpfs.Base.{
  ℕ, ◌-◌, ◌^◌, ◌<◌, ◌≡◌, refl, Option, none, some, List, [], ◌∷◌, arith, ◌==◌, if◌then◌else◌, Text,
  codes, text_eq, lookup, to_string, is_free_of,
}
use haybarn_httpfs.Http.FileInfo.{try_parse_content_range, try_parse_content_length}
use haybarn_httpfs.Http.FileInfo.Sizes.{try_parse_content_range-print_size}

abbrev optional_idx : ℕ → Option ℕ
optional_idx n = if n == 18446744073709551615 then none else some n

optional_idx_fits : (n : ℕ) → n < 2 ^ 64 - 1 → optional_idx n ≡ some n
optional_idx_fits n h = ground arith

abbrev headers : List (Text × Text)
headers = (codes "Content-Range", codes "bytes 0-6/20") ∷ (codes "Content-Length", codes "7") ∷ []

some-small : (n : ℕ) → some 20 ≡ some n → n < 2 ^ 64 - 1
some-small n h = ground arith

try_parse_content_range-print_size_example :
    (try_parse_content_range optional_idx headers ≡ some 20)
    × (try_parse_content_length optional_idx headers ≡ some 7)
unfolding lookup text_eq to_string
try_parse_content_range-print_size_example =
    try_parse_content_range-print_size optional_idx optional_idx_fits (codes "bytes 0-6") (some 20)
      7 headers (unfold is_free_of in refl) some-small (omega arith) refl refl
