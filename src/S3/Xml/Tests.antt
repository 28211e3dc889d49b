-- ===== src/S3/Xml/Tests.antt =====
-- An error body and a page of a listing.
use haybarn_httpfs.Base.{
  ◌≡◌, refl, some, List, [], ◌∷◌, ◌++◌, arith, Text, codes, text_eq, starts_with, find_first,
}
use haybarn_httpfs.Http.Types.{ok}
use haybarn_httpfs.S3.Xml.{
  try_find_tag_contents, try_get_s3_error_code, parse_s3_error, StringUtil, parse_files,
  parse_file_list,
}
use haybarn_httpfs.S3.Xml.Tags.{Found, try_find_tag_contents-Found, misses}
use haybarn_httpfs.S3.Xml.Errors.{error_body, parse_s3_error-error_body}
use haybarn_httpfs.S3.Xml.Listing.{parse_file_list-ends}
use haybarn_httpfs.S3.Xml.Pages.{Object, page}

abbrev util : StringUtil
util = record { url_decode = λ t. t; replace = λ t from to. t }

abbrev size_page : Text
size_page = codes "<a><Size>12</Size></a>"

try_find_tag_contents-Found_example : Found size_page (codes "Size") 1 (codes "12") 18
try_find_tag_contents-Found_example =
    try_find_tag_contents-Found size_page (codes "Size") (codes "12") 1 18
      (unfold try_find_tag_contents find_first starts_with in refl)

parse_s3_error-error_body_example :
    (parse_s3_error
        (error_body (codes "<?xml?>") (codes "NoSuchKey") (codes "No such key") (codes "<X>") [])
      ≡ codes "\n\n" ++ codes "NoSuchKey" ++ codes ": " ++ codes "No such key")
    × (try_get_s3_error_code
          (error_body (codes "<?xml?>") (codes "NoSuchKey") (codes "No such key") (codes "<X>") [])
        ≡ some (codes "NoSuchKey"))
parse_s3_error-error_body_example =
    parse_s3_error-error_body (codes "<?xml?>") (codes "NoSuchKey") (codes "No such key")
      (codes "<X>") [] (unfold misses in refl) refl refl (unfold misses in refl)
      (unfold text_eq in refl)

abbrev objects : List Object
objects =
    record { key = codes "a/"; size = codes "0" }
    ∷ record { key = codes "a/b"; size = codes "7" }
    ∷ []

parse_file_list-ends_example :
    parse_files util (ok []) 500 (page objects (codes "</L>")) 0 []
    ≡ parse_file_list util (page objects (codes "</L>")) []
parse_file_list-ends_example =
    parse_file_list-ends util (ok []) 500 (page objects (codes "</L>")) [] (omega arith)

abbrev prefixes_page : Text
prefixes_page = codes "<CommonPrefixes><Prefix>a/</Prefix></CommonPrefixes>"
