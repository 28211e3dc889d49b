-- ===== src/HuggingFace/Listing.antt =====
-- ParseListResult: the scan for the files and the directories of a page of a listing.
mod Rounds
pub mod Pages
mod Tests
use haybarn_httpfs.Base.{
  ℕ, zero, suc, ◌+◌, ◌-◌, Bool, true, false, ◌&&◌, ◌||◌, not, List, [], ◌∷◌, ◌++◌, ltb, ◌==◌,
  if◌then◌else◌, length, drop, Text, codes, is_empty, starts_with,
}
use haybarn_httpfs.Http.Types.{io, internal, bad_hf_list, out_of_fuel, Result, ok, throw, plain}

-- parse_entry.
pub data EntryType : Type 0 where
  file dir unknown : EntryType

-- The labels that the scan jumps between.
pub data Label : Type 0 where
  base entry pathname : Label

-- The variables of the function, `files` and `directories` included.
pub record Scan : Type 0 where
  pub nested : ℕ
  pub found_path : Bool
  pub type : EntryType
  pub current_string : Text
  pub files : List Text
  pub directories : List Text

abbrev pub type_directory : Text
type_directory = codes "\"type\":\"directory\""

abbrev pub type_file : Text
type_file = codes "\"type\":\"file\""

abbrev pub path_key : Text
path_key = codes "\"path\":\""

-- An entry that is complete, and the reset at `base`.
unfoldable pub add_entry : EntryType → Scan → Scan
add_entry file s = record s {
  files = s.files ++ (b'/' ∷ s.current_string) ∷ [];
  current_string = [];
  found_path = false;
  type = unknown;
}
add_entry other s = record s {
  directories = s.directories ++ (b'/' ∷ s.current_string) ∷ [];
  current_string = [];
  found_path = false;
  type = unknown;
}

abbrev pub is_unknown : EntryType → Bool
is_unknown unknown = true
is_unknown file = false
is_unknown dir = false

-- At a closing brace of an entry.
unfoldable pub close_brace : Scan → Text → Result (Label × Scan × Text)
unfolding add_entry
close_brace s rest =
    if ltb 0 s.nested
    then ok (entry, record s { nested = s.nested - 1 }, rest)
    else if not s.found_path || is_unknown s.type
    then throw (plain io bad_hf_list)
    else ok (base, add_entry s.type s, rest)

-- One round at a label, from the input that begins with `c`.
unfoldable pub step : Label → Scan → ℕ → Text → Result (Label × Scan × Text)
unfolding close_brace starts_with
step base s c rest = ok (if c == b'{' then entry else base, s, rest)
step entry s c rest =
    if c == b'}'
    then close_brace s rest
    else if c == b'{'
    then ok (entry, record s { nested = s.nested + 1 }, rest)
    else if starts_with (c ∷ rest) type_directory
    then ok (entry, record s { type = dir }, drop 18 (c ∷ rest))
    else if starts_with (c ∷ rest) type_file
    then ok (entry, record s { type = file }, drop 13 (c ∷ rest))
    else if starts_with (c ∷ rest) path_key
    then ok (pathname, record s { found_path = true }, drop 8 (c ∷ rest))
    else ok (entry, s, rest)
step pathname s c rest =
    if c == b'\\' && (not (is_empty rest) && c == b'"')
    then ok (pathname, record s { current_string = s.current_string ++ b'"' ∷ [] }, drop 1 rest)
    else if c == b'"'
    then ok (entry, s, rest)
    else ok (pathname, record s { current_string = s.current_string ++ c ∷ [] }, rest)

-- On fuel, a unit for each round. Spent fuel throws.
unfoldable pub scan : ℕ → Label → Scan → Text → Result Scan
unfolding step
scan zero label s input = throw (plain internal out_of_fuel)
scan (suc fuel) label s [] = ok s
scan (suc fuel) label s (c ∷ rest) = elim (step label s c rest) [
  | throw e ↦ throw e
  | ok (label', s', rest') ↦ scan fuel label' s' rest'
]

abbrev pub started : List Text → List Text → Scan
started files directories = record {
  nested = 0;
  found_path = false;
  type = unknown;
  current_string = [];
  files = files;
  directories = directories;
}

-- Every round shortens the input, so one more round than its length is enough.
unfoldable pub parse_list_result : Text → List Text → List Text → Result Scan
unfolding scan
parse_list_result input files directories =
    scan (suc (length input)) base (started files directories) input
