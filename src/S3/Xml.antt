-- ===== src/S3/Xml.antt =====
-- The XML of S3 (s3fs.cpp): tags, error bodies, and the pages of a listing.
pub mod Tags
mod Errors
pub mod Listing
mod Pages
mod Prefixes
mod Tests
use haybarn_httpfs.Base.{
  ℕ, zero, suc, ◌+◌, ◌-◌, Bool, false, Option, none, some, List, [], ◌∷◌, ◌++◌, ◌==◌, if◌then◌else◌,
  length, Text, codes, text_eq, is_empty, find, substr,
}
use haybarn_httpfs.Http.Types.{
  internal, unmatched_tag, key_not_found, bad_list_result, out_of_fuel, Result, ok, throw, ◌>>=◌,
  plain,
}

abbrev pub open_tag : Text → Text
open_tag tag = b'<' ∷ tag ++ codes ">"

abbrev pub close_tag : Text → Text
close_tag tag = b'<' ∷ b'/' ∷ tag ++ codes ">"

-- TryFindTagContents: the contents of the next tag, and the position behind it. The text from
-- `start` on, behind the open tag, holds the contents.
unfoldable pub find_contents : Text → Text → ℕ → Option (Text × ℕ)
unfolding find substr
find_contents response tag start = elim (find response (close_tag tag) start) [
  | none ↦ none
  | some close_tag_pos ↦
      some (substr response start (close_tag_pos - start), close_tag_pos + length (close_tag tag))
]

unfoldable pub try_find_tag_contents : Text → Text → ℕ → Option (Text × ℕ)
unfolding find_contents
try_find_tag_contents response tag cur_pos = elim (find response (open_tag tag) cur_pos) [
  | none ↦ none
  | some open_tag_pos ↦ find_contents response tag (open_tag_pos + length (open_tag tag))
]

-- FindTagContents: an open tag with no close tag is an error.
unfoldable pub find_tag_contents : Text → Text → ℕ → Result (Option (Text × ℕ))
unfolding try_find_tag_contents
find_tag_contents response tag cur_pos = elim (find response (open_tag tag) cur_pos) [
  | none ↦ ok none
  | some _ ↦ elim (try_find_tag_contents response tag cur_pos) [
    | none ↦ throw (plain internal unmatched_tag)
    | some found ↦ ok (some found)
  ]
]

abbrev contents_of : Option (Text × ℕ) → Option Text
contents_of none = none
contents_of (some (contents, _)) = some contents

-- TryGetS3ErrorCode.
unfoldable pub try_get_s3_error_code : Text → Option Text
try_get_s3_error_code body =
    if is_empty body then none else elim (try_find_tag_contents body (codes "Error") 0) [
      | none ↦ none
      | some (error_xml, _) ↦ contents_of (try_find_tag_contents error_xml (codes "Code") 0)
    ]

abbrev invalid_access_key : Text → Text
invalid_access_key error_xml = elim (try_find_tag_contents error_xml (codes "AWSAccessKeyId") 0) [
  | none ↦ []
  | some (key, _) ↦ codes "\nInvalid Access Key: \"" ++ key ++ codes "\""
]

-- ParseS3Error.
unfoldable pub parse_s3_error : Text → Text
parse_s3_error error =
    if is_empty error then [] else elim (try_find_tag_contents error (codes "Error") 0) [
      | none ↦ []
      | some (error_xml, _) ↦ elim (try_find_tag_contents error_xml (codes "Code") 0) [
        | none ↦ []
        | some (error_code, _) ↦ elim (try_find_tag_contents error_xml (codes "Message") 0) [
          | none ↦ []
          | some (error_message, _) ↦
              codes "\n\n"
              ++ error_code
              ++ codes ": "
              ++ error_message
              ++ (if text_eq error_code (codes "InvalidAccessKeyId")
                  then invalid_access_key error_xml
                  else [])
        ]
      ]
    ]

-- OpenFileInfo with the options of its ExtendedOpenFileInfo, whose values are held as the texts that
-- DuckDB casts.
pub record OpenFileInfo : Type 0 where
  pub path : Text
  pub last_modified : Option Text
  pub etag : Option Text
  pub file_size : Option Text

-- StringUtil::URLDecode with plus_to_space, and StringUtil::Replace.
pub record StringUtil : Type 0 where
  pub url_decode : Text → Text
  pub replace : Text → Text → Text → Text

abbrev pub ends_with_slash : Text → Bool
ends_with_slash [] = false
ends_with_slash (c ∷ []) = c == b'/'
ends_with_slash (c ∷ d ∷ s) = ends_with_slash (d ∷ s)

module _ (util : StringUtil) where
  abbrev unescape_etag : Text → Text
  unescape_etag etag =
      util.replace (util.replace etag (codes "&quot;") (codes "\"")) (codes "&#34;") (codes "\"")

  abbrev map_option : (Text → Text) → Option Text → Option Text
  map_option f none = none
  map_option f (some t) = some (f t)

  -- The body of ParseFileList's loop: no file for a directory.
  unfoldable pub parse_contents : Text → Result (Option OpenFileInfo)
  unfolding find_tag_contents
  parse_contents contents = find_tag_contents contents (codes "Key") 0 >>= λ found. elim found [
    | none ↦ throw (plain internal key_not_found)
    | some (key, _) ↦
        if ends_with_slash (util.url_decode key)
        then ok none
        else (find_tag_contents contents (codes "LastModified") 0 >>= λ last_modified.
            find_tag_contents contents (codes "ETag") 0 >>= λ etag.
            find_tag_contents contents (codes "Size") 0 >>= λ size. ok (
              some (record {
                path = util.url_decode key;
                last_modified = contents_of last_modified;
                etag = map_option unescape_etag (contents_of etag);
                file_size = contents_of size;
              })))
  ]

  -- The loop of ParseFileList, on fuel; `spent` is the result when the fuel is spent.
  unfoldable pub parse_files :
      Result (List OpenFileInfo) → ℕ → Text → ℕ → List OpenFileInfo → Result (List OpenFileInfo)
  unfolding parse_contents
  parse_files spent zero response cur_pos result = spent
  parse_files spent (suc fuel) response cur_pos result =
      elim (find_tag_contents response (codes "Contents") cur_pos) [
        | throw e ↦ throw e
        | ok none ↦ ok result
        | ok (some (contents, next_pos)) ↦ elim (parse_contents contents) [
          | throw e ↦ throw e
          | ok none ↦ parse_files spent fuel response next_pos result
          | ok (some file) ↦ parse_files spent fuel response next_pos (result ++ file ∷ [])
        ]
      ]

  -- ParseFileList: a file for each round, and each round passes characters of the response.
  unfoldable pub parse_file_list : Text → List OpenFileInfo → Result (List OpenFileInfo)
  unfolding parse_files
  parse_file_list response result =
      parse_files (throw (plain internal out_of_fuel)) (suc (length response)) response 0 result

-- ParseContinuationToken.
unfoldable pub parse_continuation_token : Text → Result Text
unfolding find substr
parse_continuation_token response = elim (find response (codes "<NextContinuationToken>") 0) [
  | none ↦ ok []
  | some open_tag_pos ↦
      elim (find response (codes "</NextContinuationToken>") (open_tag_pos + 23)) [
        | none ↦ throw (plain internal bad_list_result)
        | some close_tag_pos ↦
            ok (substr response (open_tag_pos + 23) (close_tag_pos - open_tag_pos - 23))
      ]
]

-- The body of ParseCommonPrefix's loop: the next prefix and the position that the loop goes on from.
unfoldable pub next_common_prefix : Text → ℕ → Result (Option (Text × ℕ))
unfolding find substr
next_common_prefix response cur_pos = elim (find response (codes "<CommonPrefixes>") cur_pos) [
  | none ↦ ok none
  | some prefixes_pos ↦ elim (find response (codes "<Prefix>") prefixes_pos) [
    | none ↦ throw (plain internal bad_list_result)
    | some next_open_tag_pos ↦ elim (find response (codes "</Prefix>") (next_open_tag_pos + 8)) [
      | none ↦ throw (plain internal bad_list_result)
      | some next_close_tag_pos ↦ ok (
          some (
            substr response (next_open_tag_pos + 8) (next_close_tag_pos - next_open_tag_pos - 8),
            next_close_tag_pos + 6,
          ))
    ]
  ]
]

unfoldable pub parse_prefixes : Result (List Text) → ℕ → Text → ℕ → List Text → Result (List Text)
unfolding next_common_prefix
parse_prefixes spent zero response cur_pos s3_prefixes = spent
parse_prefixes spent (suc fuel) response cur_pos s3_prefixes =
    elim (next_common_prefix response cur_pos) [
      | throw e ↦ throw e
      | ok none ↦ ok s3_prefixes
      | ok (some (parsed_path, next_pos)) ↦
          parse_prefixes spent fuel response next_pos (s3_prefixes ++ parsed_path ∷ [])
    ]

-- ParseCommonPrefix.
unfoldable pub parse_common_prefix : Text → Result (List Text)
unfolding parse_prefixes
parse_common_prefix response =
    parse_prefixes (throw (plain internal out_of_fuel)) (suc (length response)) response 0 []
