-- ===== src/S3/DeleteBatch.antt =====
-- The keys by which RemoveFiles groups objects into batches (s3fs.cpp): S3DeleteBatchKeyBuilder and
-- CreateDeleteBatchKey.
mod Separates
mod Tests
use haybarn_httpfs.Base.{Bool, List, [], ◌∷◌, ◌++◌, if◌then◌else◌, length, Text, codes, to_string}
use haybarn_httpfs.S3.Auth.{S3AuthParams}
use haybarn_httpfs.S3.Refresh.{S3RefreshableHttpParams}

-- S3DeleteBatchUrlInfo.
pub record S3DeleteBatchUrlInfo : Type 0 where
  pub prefix : Text
  pub http_proto : Text
  pub host : Text
  pub path : Text
  pub auth_params : S3AuthParams

-- AddString: a part that starts with its length.
unfoldable pub length_prefixed : Text → Text
unfolding to_string
length_prefixed value = to_string (length value) ++ (b':' ∷ (value ++ codes ";"))

-- AddBool.
unfoldable pub bool_part : Bool → Text
bool_part value = if value then codes "1" else codes "0"

-- Build.
unfoldable pub build : List Text → Text
unfolding length_prefixed
build [] = []
build (part ∷ parts) = length_prefixed part ++ build parts

-- AddDeleteBatchUrlKeyParts, before the parts that are added later.
unfoldable pub add_url_parts : S3DeleteBatchUrlInfo → List Text → List Text
add_url_parts u parts = u.prefix ∷ u.http_proto ∷ u.host ∷ u.path ∷ parts

-- AddDeleteBatchAuthKeyParts.
unfoldable pub add_auth_parts : S3AuthParams → List Text → List Text
unfolding bool_part
add_auth_parts p parts =
    p.region
    ∷ p.access_key_id
    ∷ p.secret_access_key
    ∷ p.session_token
    ∷ p.endpoint
    ∷ p.kms_key_id
    ∷ p.url_style
    ∷ bool_part p.use_ssl
    ∷ bool_part p.s3_url_compatibility_mode
    ∷ bool_part p.requester_pays
    ∷ p.oauth2_bearer_token
    ∷ parts

abbrev add_headers : List (Text × Text) → List Text → List Text
add_headers [] parts = parts
add_headers ((k, v) ∷ headers) parts = k ∷ v ∷ add_headers headers parts

-- AddDeleteBatchHTTPKeyParts; `sort` is std::sort on the headers.
unfoldable pub add_http_parts :
    (List (Text × Text) → List (Text × Text)) → S3RefreshableHttpParams → List Text → List Text
unfolding bool_part to_string
add_http_parts sort h parts =
    h.http_proxy
    ∷ to_string h.http_proxy_port
    ∷ h.http_proxy_username
    ∷ h.http_proxy_password
    ∷ bool_part h.override_verify_ssl
    ∷ bool_part h.verify_ssl
    ∷ h.bearer_token
    ∷ add_headers (sort h.extra_headers) parts

-- CreateDeleteBatchKey; `secret_parts` are those of the selected secrets and of the refresh.
unfoldable pub create_delete_batch_key :
    (List (Text × Text) → List (Text × Text))
    → S3DeleteBatchUrlInfo
    → S3RefreshableHttpParams
    → List Text
    → Text
unfolding build add_url_parts add_auth_parts add_http_parts
create_delete_batch_key sort u h secret_parts =
    build (add_url_parts u (add_auth_parts u.auth_params (add_http_parts sort h secret_parts)))
