-- ===== src/S3/Url.antt =====
-- URLs of S3 objects (s3fs.cpp): S3UrlParse, GetHTTPUrl and the bucket's path.
mod Parses
mod Tests
use haybarn_httpfs.Base.{
  ℕ, ◌+◌, ◌-◌, ◌%◌, Bool, ◌||◌, not, Option, none, some, List, [], ◌∷◌, ◌++◌, if◌then◌else◌, length,
  take, drop, Text, codes, text_eq, is_empty, starts_with, find, substr,
}
use haybarn_httpfs.Http.Types.{
  io, bad_scheme, no_slash, no_bucket, no_key, Result, ok, throw, ◌>>=◌, plain, word,
}
use haybarn_httpfs.S3.Auth.{S3AuthParams}

-- StringUtil::Lower and S3FileSystem::UrlEncode.
pub record UrlUtil : Type 0 where
  pub lower : Text → Text
  pub url_encode : Text → Text

pub record ParsedS3Url : Type 0 where
  pub http_proto : Text
  pub prefix : Text
  pub host : Text
  pub bucket : Text
  pub key : Text
  pub path : Text
  pub query_param : Text
  pub trimmed_s3_url : Text

abbrev pub prefixes : List Text
prefixes =
    codes "s3://"
    ∷ codes "s3a://"
    ∷ codes "s3n://"
    ∷ codes "gcs://"
    ∷ codes "gs://"
    ∷ codes "r2://"
    ∷ []

unfoldable pub first_prefix : Text → List Text → Text
unfolding starts_with
first_prefix url [] = []
first_prefix url (prefix ∷ rest) = if starts_with url prefix then prefix else first_prefix url rest

-- S3FileSystem::CanHandleFile: a position of zero makes the product zero.
unfoldable pub can_handle_file : Text → Bool
unfolding first_prefix
can_handle_file fpath = not (is_empty (first_prefix fpath prefixes))

-- TryGetPrefix.
unfoldable pub try_get_prefix : UrlUtil → Text → Text
unfolding first_prefix
try_get_prefix util url = first_prefix (util.lower url) prefixes

unfoldable pub get_prefix : UrlUtil → Text → Result Text
unfolding try_get_prefix
get_prefix util url =
    if is_empty (try_get_prefix util url)
    then throw (plain io bad_scheme)
    else ok (try_get_prefix util url)

-- The key with its leading slash, the query, and the URL without the query.
unfoldable pub split_query : Bool → Text → ℕ → Text × Text × Text
unfolding find substr
split_query s3_url_compatibility_mode url slash_pos =
    if s3_url_compatibility_mode
    then (drop slash_pos url, [], url)
    else elim (find url (codes "?") 0) [
      | none ↦ (drop slash_pos url, [], url)
      | some question_pos ↦ (
        if is_empty (drop (question_pos + 1) url)
            then drop slash_pos url
            else substr url slash_pos ((question_pos + word - slash_pos) % word),
        drop (question_pos + 1) url,
        substr url 0 question_pos,
      )
    ]

-- The host and the path of the endpoint.
unfoldable pub split_endpoint : Text → Text × Text
unfolding find substr
split_endpoint endpoint = elim (find endpoint (codes "/") 0) [
  | none ↦ (endpoint, [])
  | some sub_path_pos ↦ (substr endpoint 0 sub_path_pos, drop sub_path_pos endpoint)
]

abbrev pub is_vhost : Text → Bool
is_vhost url_style =
    text_eq url_style (codes "vhost") || text_eq url_style (codes "virtual") || is_empty url_style

-- The end of S3UrlParse, from the bucket, the key with its slash, the query and the trimmed URL.
unfoldable pub derive_url : S3AuthParams → Text → Text → Text × Text × Text → Result ParsedS3Url
unfolding split_endpoint text_eq
derive_url params prefix bucket (slashed_key, query_param, trimmed_s3_url) =
    let (host, path) = split_endpoint params.endpoint in
    if is_empty bucket
    then throw (plain io no_bucket)
    else if is_empty slashed_key
    then throw (plain io no_key)
    else ok (record {
      http_proto = if params.use_ssl then codes "https://" else codes "http://";
      prefix = prefix;
      host = if is_vhost params.url_style then bucket ++ codes "." ++ host else host;
      bucket = bucket;
      key = drop 1 slashed_key;
      path =
          (if is_vhost params.url_style
            then path
            else if text_eq params.url_style (codes "path")
            then path ++ codes "/" ++ bucket
            else path)
          ++ slashed_key;
      query_param = query_param;
      trimmed_s3_url = trimmed_s3_url;
    })

-- From the end of the prefix and the position of the slash behind it.
unfoldable pub split_url : S3AuthParams → Text → Text → ℕ → Option ℕ → Result ParsedS3Url
unfolding derive_url split_query substr
split_url params prefix url prefix_end_pos none = throw (plain io no_slash)
split_url params prefix url prefix_end_pos (some slash_pos) =
    derive_url params prefix (substr url prefix_end_pos (slash_pos - prefix_end_pos))
      (split_query params.s3_url_compatibility_mode url slash_pos)

-- A URL with a prefix has slashes.
abbrev pub prefix_end : Option ℕ → ℕ
prefix_end none = 1
prefix_end (some slashes_pos) = slashes_pos + 2

-- S3UrlParse.
unfoldable pub s3_url_parse : UrlUtil → Text → S3AuthParams → Result ParsedS3Url
unfolding get_prefix split_url find
s3_url_parse util url params = get_prefix util url >>= λ prefix.
    split_url params prefix url (prefix_end (find url (codes "//") 0))
      (find url (codes "/") (prefix_end (find url (codes "//") 0)))

-- ParsedS3Url::GetHTTPUrl.
unfoldable pub get_http_url : UrlUtil → ParsedS3Url → Text → Text
get_http_url util p http_query_string =
    let full_url = p.http_proto ++ p.host ++ util.url_encode p.path in
    if is_empty http_query_string then full_url else full_url ++ codes "?" ++ http_query_string

-- GetS3BucketPath.
unfoldable pub get_s3_bucket_path : ParsedS3Url → Text
get_s3_bucket_path p =
    let bucket_path = take (length p.path - length p.key) p.path in
    if is_empty bucket_path then codes "/" else bucket_path
