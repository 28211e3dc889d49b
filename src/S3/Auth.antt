-- ===== src/S3/Auth.antt =====
-- S3AuthParams (s3fs.cpp, include/s3fs.hpp): where the parameters of a request come from.
mod Region
pub mod Query
use haybarn_httpfs.Base.{
  Bool, true, false, ◌&&◌, ◌||◌, not, Option, none, some, List, [], ◌∷◌, ◌++◌, if◌then◌else◌, Text,
  codes, text_eq, is_empty, starts_with, ends_with, lookup, erase,
}
use haybarn_httpfs.Http.Types.{
  io, Message, bad_query, bad_use_ssl, bad_requester_pays, Result, ok, throw, ◌>>=◌, plain,
}

pub record S3AuthParams : Type 0 where
  pub region : Text
  pub access_key_id : Text
  pub secret_access_key : Text
  pub session_token : Text
  pub endpoint : Text
  pub kms_key_id : Text
  pub url_style : Text
  pub use_ssl : Bool
  pub s3_url_compatibility_mode : Bool
  pub requester_pays : Bool
  pub oauth2_bearer_token : Text

abbrev pub default_auth_params : S3AuthParams
default_auth_params = record {
  region = [];
  access_key_id = [];
  secret_access_key = [];
  session_token = [];
  endpoint = [];
  kms_key_id = [];
  url_style = [];
  use_ssl = true;
  s3_url_compatibility_mode = false;
  requester_pays = false;
  oauth2_bearer_token = [];
}

-- SettingScope, as far as it is compared.
pub data SettingScope : Type 0 where
  secret_scope other_scope : SettingScope

-- S3KeyValueReader: a secret's key or a setting, and a secret's key alone.
pub record S3KeyValueReader : Type 0 where
  pub text : Text → Text → Option (Text × SettingScope)
  pub flag : Text → Text → Option Bool
  pub secret_key : Text → Option Text

-- EndpointIsAWS.
unfoldable pub endpoint_is_aws : Text → Bool
unfolding starts_with ends_with
endpoint_is_aws endpoint =
    is_empty endpoint
    || (starts_with endpoint (codes "s3.") && ends_with endpoint (codes ".amazonaws.com"))

abbrev pub regional_endpoint : Text → Text
regional_endpoint region = codes "s3." ++ region ++ codes ".amazonaws.com"

-- S3AuthParams::InitializeEndpoint.
unfoldable pub initialize_endpoint : S3AuthParams → S3AuthParams
unfolding endpoint_is_aws
initialize_endpoint p =
    if not (endpoint_is_aws p.endpoint)
    then p
    else if is_empty p.region
    then (if is_empty p.access_key_id
        then record p { endpoint = codes "s3.amazonaws.com" }
        else record p {
          region = codes "us-east-1";
          endpoint = regional_endpoint (codes "us-east-1");
        })
    else record p { endpoint = regional_endpoint p.region }

-- S3AuthParams::SetRegion.
unfoldable pub set_region : Text → S3AuthParams → S3AuthParams
unfolding initialize_endpoint
set_region new_region p = initialize_endpoint (record p { region = new_region })

abbrev pub is_gcs : Text → Bool
is_gcs url = starts_with url (codes "gcs://") || starts_with url (codes "gs://")

abbrev pub or_default {ℓ} : {A : Type ℓ} → A → Option A → A
or_default d none = d
or_default d (some a) = a

abbrev text_or : Text → Option (Text × SettingScope) → Text
text_or d none = d
text_or d (some (t, _)) = t

-- The value of a GCS parameter that only a secret overrides.
abbrev secret_or : Text → Option (Text × SettingScope) → Text
secret_or forced (some (c ∷ t, secret_scope)) = c ∷ t
secret_or forced _ = forced

-- S3AuthParams::ReadFrom.
unfoldable pub read_from : S3KeyValueReader → Text → S3AuthParams
unfolding initialize_endpoint starts_with
read_from reader file_path =
    let endpoint_result = reader.text (codes "endpoint") (codes "s3_endpoint") in
    let url_style_result = reader.text (codes "url_style") (codes "s3_url_style") in
    initialize_endpoint (record {
      region = text_or [] (reader.text (codes "region") (codes "s3_region"));
      access_key_id = text_or [] (reader.text (codes "key_id") (codes "s3_access_key_id"));
      secret_access_key = text_or [] (reader.text (codes "secret") (codes "s3_secret_access_key"));
      session_token = text_or [] (reader.text (codes "session_token") (codes "s3_session_token"));
      endpoint =
          if is_gcs file_path
          then secret_or (codes "storage.googleapis.com") endpoint_result
          else text_or [] endpoint_result;
      kms_key_id = text_or [] (reader.text (codes "kms_key_id") (codes "s3_kms_key_id"));
      url_style =
          if is_gcs file_path
          then secret_or (codes "path") url_style_result
          else text_or [] url_style_result;
      use_ssl = or_default true (reader.flag (codes "use_ssl") (codes "s3_use_ssl"));
      s3_url_compatibility_mode =
          or_default false
            (reader.flag (codes "s3_url_compatibility_mode") (codes "s3_url_compatibility_mode"));
      requester_pays =
          or_default false (reader.flag (codes "requester_pays") (codes "s3_requester_pays"));
      oauth2_bearer_token =
          if is_gcs file_path then or_default [] (reader.secret_key (codes "bearer_token")) else [];
    })

-- GetQueryParam: the parameter's value, or the one before, and the other parameters.
unfoldable pub get_query_param : Text → Text → List (Text × Text) → Text × List (Text × Text)
unfolding lookup erase
get_query_param key param query_params = elim (lookup key query_params) [
  | none ↦ (param, query_params)
  | some value ↦ (value, erase key query_params)
]

-- A parameter that is true or false.
unfoldable pub get_query_flag :
    Text → Message → Bool → List (Text × Text) → Result (Bool × List (Text × Text))
unfolding lookup erase text_eq
get_query_flag key incorrect param query_params = elim (lookup key query_params) [
  | none ↦ ok (param, query_params)
  | some value ↦
      if text_eq value (codes "true")
      then ok (true, erase key query_params)
      else if text_eq value (codes "false")
      then ok (false, erase key query_params)
      else throw (plain io incorrect)
]

-- ReadQueryParams, from the parameters that HTTPFSUtil::ParseGetParameters finds in the query.
unfoldable pub read_query_params :
    (Text → List (Text × Text)) → Text → S3AuthParams → Result S3AuthParams
unfolding get_query_param get_query_flag
read_query_params parse_get_parameters url_query_param p =
    if is_empty url_query_param
    then ok p
    else (let (region, q0) =
          get_query_param (codes "s3_region") p.region (parse_get_parameters url_query_param) in
        let (access_key_id, q1) = get_query_param (codes "s3_access_key_id") p.access_key_id q0 in
        let (secret_access_key, q2) =
          get_query_param (codes "s3_secret_access_key") p.secret_access_key q1 in
        let (session_token, q3) = get_query_param (codes "s3_session_token") p.session_token q2 in
        let (endpoint, q4) = get_query_param (codes "s3_endpoint") p.endpoint q3 in
        let (url_style, q5) = get_query_param (codes "s3_url_style") p.url_style q4 in
        get_query_flag (codes "s3_use_ssl") bad_use_ssl p.use_ssl q5 >>= λ (use_ssl, q6).
        get_query_flag (codes "s3_requester_pays") bad_requester_pays p.requester_pays q6
        >>= λ (requester_pays, q7).
            if not (is_empty q7)
            then throw (plain io bad_query)
            else ok (record p {
              region = region;
              access_key_id = access_key_id;
              secret_access_key = secret_access_key;
              session_token = session_token;
              endpoint = endpoint;
              url_style = url_style;
              use_ssl = use_ssl;
              requester_pays = requester_pays;
            }))
