-- ===== src/S3/Url/Tests.antt =====
-- The URL of one object.
use haybarn_httpfs.Base.{◌≡◌, refl, [], Text, codes, starts_with, is_free_of}
use haybarn_httpfs.Http.Types.{Result, ok, throw}
use haybarn_httpfs.S3.Auth.{S3AuthParams, default_auth_params}
use haybarn_httpfs.S3.Url.{UrlUtil, ParsedS3Url, first_prefix, s3_url_parse}
use haybarn_httpfs.S3.Url.Parses.{object_url, parsed, s3_url_parse-object_url}

abbrev util : UrlUtil
util = record { lower = λ t. t; url_encode = λ t. t }

abbrev params : S3AuthParams
params = record default_auth_params { endpoint = codes "s3.amazonaws.com" }

s3_url_parse-object_url_example :
    s3_url_parse util (object_url (codes "b") (codes "k/l")) params
    ≡ ok (parsed (codes "b") (codes "k/l") (unfold is_free_of in refl) params)
s3_url_parse-object_url_example =
    s3_url_parse-object_url (codes "b") (codes "k/l") (unfold is_free_of in refl) util params refl
      (unfold is_free_of in refl) (unfold is_free_of in refl) (unfold starts_with in refl)

-- A URL that ends with a '?' keeps it in the key, though the trimmed URL is without it.
abbrev key_and_trimmed : Result ParsedS3Url → Text × Text
key_and_trimmed (throw e) = ([], [])
key_and_trimmed (ok p) = (p.key, p.trimmed_s3_url)

question_kept :
    key_and_trimmed (s3_url_parse util (codes "s3://b/k?") params) ≡ (codes "k?", codes "s3://b/k")
unfolding s3_url_parse first_prefix
question_kept = refl
