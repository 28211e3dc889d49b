-- ===== src/S3/DeleteBatch/Tests.antt =====
-- Two objects of one bucket.
use haybarn_httpfs.Base.{◌≡◌, refl, true, false, List, [], ◌∷◌, Text, codes}
use haybarn_httpfs.S3.Auth.{default_auth_params}
use haybarn_httpfs.S3.Refresh.{S3RefreshableHttpParams, auth_params_match}
use haybarn_httpfs.S3.DeleteBatch.{S3DeleteBatchUrlInfo}
use haybarn_httpfs.S3.DeleteBatch.Separates.{create_delete_batch_key-separates}

abbrev connection : S3RefreshableHttpParams
connection = record {
  http_proxy = [];
  http_proxy_port = 0;
  http_proxy_username = [];
  http_proxy_password = [];
  extra_headers = (codes "k", codes "v") ∷ [];
  override_verify_ssl = false;
  verify_ssl = true;
  bearer_token = [];
}

abbrev place : S3DeleteBatchUrlInfo
place = record {
  prefix = codes "s3://";
  http_proto = codes "https://";
  host = codes "b.s3.amazonaws.com";
  path = codes "/";
  auth_params = default_auth_params;
}

abbrev sort : List (Text × Text) → List (Text × Text)
sort headers = headers

create_delete_batch_key-separates_example :
    (auth_params_match default_auth_params default_auth_params ≡ true)
    × (place.prefix ≡ codes "s3://")
    × (place.http_proto ≡ codes "https://")
    × (place.host ≡ codes "b.s3.amazonaws.com")
    × (place.path ≡ codes "/")
create_delete_batch_key-separates_example =
    create_delete_batch_key-separates sort place place connection connection [] [] refl
