-- ===== src/S3/Refresh.antt =====
-- Requests to S3 that are sent again with new credentials or to another region (s3fs.cpp).
mod Reloads
mod Rounds
mod Tests
use haybarn_httpfs.Base.{
  ℕ, zero, suc, Bool, true, false, ◌&&◌, ◌||◌, not, Option, none, some, List, [], ◌∷◌, ◌==◌,
  if◌then◌else◌, Text, codes, text_eq, is_empty, lookup,
}
use haybarn_httpfs.Http.Types.{internal, out_of_fuel, Exception, Response, Result, ok, throw, plain}
use haybarn_httpfs.Http.ClientCache.{ClientCache, clear}
use haybarn_httpfs.S3.Xml.{try_get_s3_error_code}
use haybarn_httpfs.S3.Auth.{S3AuthParams, set_region}

-- S3RefreshableHTTPParams.
pub record S3RefreshableHttpParams : Type 0 where
  pub http_proxy : Text
  pub http_proxy_port : ℕ
  pub http_proxy_username : Text
  pub http_proxy_password : Text
  pub extra_headers : List (Text × Text)
  pub override_verify_ssl : Bool
  pub verify_ssl : Bool
  pub bearer_token : Text

-- The parameters of a connection: what can be refreshed, and pre_merged_headers of HTTPFSParams.
pub record HttpfsParams : Type 0 where
  pub refreshable : S3RefreshableHttpParams
  pub pre_merged_headers : Bool

abbrev pub bool_eq : Bool → Bool → Bool
bool_eq true b = b
bool_eq false b = not b

abbrev pub headers_eq : List (Text × Text) → List (Text × Text) → Bool
headers_eq [] [] = true
headers_eq ((k, v) ∷ h) ((j, w) ∷ g) = (text_eq k j && text_eq v w) && headers_eq h g
headers_eq _ _ = false

-- S3AuthParamsMatch.
unfoldable pub auth_params_match : S3AuthParams → S3AuthParams → Bool
unfolding text_eq
auth_params_match left right =
    text_eq left.region right.region
    && text_eq left.access_key_id right.access_key_id
    && text_eq left.secret_access_key right.secret_access_key
    && text_eq left.session_token right.session_token
    && text_eq left.endpoint right.endpoint
    && text_eq left.kms_key_id right.kms_key_id
    && text_eq left.url_style right.url_style
    && bool_eq left.use_ssl right.use_ssl
    && bool_eq left.s3_url_compatibility_mode right.s3_url_compatibility_mode
    && bool_eq left.requester_pays right.requester_pays
    && text_eq left.oauth2_bearer_token right.oauth2_bearer_token

-- SnapshotRefreshableHTTPParams.
unfoldable pub snapshot : HttpfsParams → S3RefreshableHttpParams
snapshot p = record p.refreshable {
  http_proxy_port = if is_empty p.refreshable.http_proxy then 0 else p.refreshable.http_proxy_port;
}

-- ApplyRefreshableHTTPParams.
unfoldable pub apply_refreshable : S3RefreshableHttpParams → HttpfsParams → HttpfsParams
apply_refreshable source target = record {
  refreshable = record source {
    http_proxy_port = if is_empty source.http_proxy then 0 else source.http_proxy_port;
  };
  pre_merged_headers = false;
}

-- S3RefreshableHTTPParamsMatch, for headers that are held in one order.
unfoldable pub refreshable_match : S3RefreshableHttpParams → S3RefreshableHttpParams → Bool
unfolding text_eq
refreshable_match left right =
    text_eq left.http_proxy right.http_proxy
    && (left.http_proxy_port == right.http_proxy_port)
    && text_eq left.http_proxy_username right.http_proxy_username
    && text_eq left.http_proxy_password right.http_proxy_password
    && headers_eq left.extra_headers right.extra_headers
    && bool_eq left.override_verify_ssl right.override_verify_ssl
    && bool_eq left.verify_ssl right.verify_ssl
    && text_eq left.bearer_token right.bearer_token

abbrev pub has_code : Option Text → Text → Bool
has_code none code = false
has_code (some found) code = text_eq found code

-- IsAuthRefreshFailure of a response.
unfoldable pub is_auth_refresh_response : Response → Bool
unfolding try_get_s3_error_code
is_auth_refresh_response r =
    if r.status == 401 || r.status == 403
    then true
    else if not (r.status == 400)
    then false
    else has_code (try_get_s3_error_code r.body) (codes "ExpiredToken")

-- IsAuthRefreshFailure of an error.
unfoldable pub is_auth_refresh_error : Exception → Bool
unfolding try_get_s3_error_code lookup text_eq
is_auth_refresh_error error = elim (lookup (codes "status_code") error.extra_info) [
  | none ↦ false
  | some status ↦
      if text_eq status (codes "401") || text_eq status (codes "403")
      then true
      else if not (text_eq status (codes "400"))
      then false
      else elim (lookup (codes "response_body") error.extra_info) [
        | none ↦ false
        | some body ↦ has_code (try_get_s3_error_code body) (codes "ExpiredToken")
      ]
]

abbrev other_region : Text → Option Text → Option Text
other_region region none = none
other_region region (some found) =
    if is_empty found || text_eq found region then none else some found

-- GetRegionRedirect of a response.
unfoldable pub response_redirect : Response → S3AuthParams → Option Text
unfolding lookup text_eq
response_redirect r p =
    if not (r.status == 301) && not (r.status == 400)
    then none
    else other_region p.region (lookup (codes "x-amz-bucket-region") r.headers)

-- GetRegionRedirect of an error.
unfoldable pub error_redirect : Exception → S3AuthParams → Option Text
unfolding lookup text_eq
error_redirect error p = elim (lookup (codes "status_code") error.extra_info) [
  | none ↦ none
  | some status ↦
      if not (text_eq status (codes "301")) && not (text_eq status (codes "400"))
      then none
      else other_region p.region (lookup (codes "header_x-amz-bucket-region") error.extra_info)
]

-- IsS3RequestTimeout.
unfoldable pub is_s3_request_timeout : Response → Bool
unfolding try_get_s3_error_code
is_s3_request_timeout r =
    if not (r.status == 400) || is_empty r.body
    then false
    else has_code (try_get_s3_error_code r.body) (codes "RequestTimeout")

-- What a refresh changes: the parameters and the clients that were made with them.
pub record Material : Type 0 where
  pub auth_params : S3AuthParams
  pub http_params : HttpfsParams
  pub client_cache : Option ClientCache

-- `opened` is what the settings and the secrets hold now, none without a FileOpener.
abbrev pub Opened : Type 0
Opened = Option (S3AuthParams × HttpfsParams)

abbrev clear_clients : Option ClientCache → Option ClientCache
clear_clients none = none
clear_clients (some c) = some (clear c)

abbrev pub keep_region : Bool → Text → S3AuthParams → S3AuthParams
keep_region preserve_region previous_region p =
    if preserve_region && (not (is_empty previous_region) && not (text_eq p.region previous_region))
    then set_region previous_region p
    else p

-- ReloadS3AuthMaterial.
unfoldable pub reload_auth_material :
    Opened → S3AuthParams → S3RefreshableHttpParams → Bool → Material → Bool × Material
unfolding auth_params_match refreshable_match snapshot apply_refreshable set_region clear
reload_auth_material none request_auth_params request_http_params preserve_region m = (false, m)
reload_auth_material (some (secrets, settings)) request_auth_params request_http_params
      preserve_region m =
    let reloaded = keep_region preserve_region m.auth_params.region secrets in
    elim (auth_params_match reloaded request_auth_params
      && refreshable_match (snapshot settings) request_http_params) [
        | true ↦ (false, m)
        | false ↦ (
          true,
          record {
            auth_params = reloaded;
            http_params = apply_refreshable (snapshot settings) m.http_params;
            client_cache = clear_clients m.client_cache;
          },
        )
      ]

-- The next attempt, where one answered false.
abbrev pub or_then : Bool × Material → (Material → Bool × Material) → Bool × Material
or_then (true, m) next = (true, m)
or_then (false, m) next = next m

-- TryRefreshS3AuthMaterial. The secrets can change while it waits for the lock, and by the refresh of
-- a secret, so there are three readings; `refreshed` is what TryRefreshS3SecretForPath answers.
unfoldable pub try_refresh_auth_material :
    Bool
    → Bool
    → Opened
    → Opened
    → Opened
    → Bool
    → S3AuthParams
    → S3RefreshableHttpParams
    → Bool
    → Material
    → Bool × Material
unfolding reload_auth_material
try_refresh_auth_material credential_refresh_enabled has_context first locked after refreshed
      request_auth_params request_http_params preserve_region m =
    let reload : Opened → Material → Bool × Material = λ opened n.
      reload_auth_material opened request_auth_params request_http_params preserve_region n in
    if not credential_refresh_enabled
    then (false, m)
    else if not (auth_params_match m.auth_params request_auth_params)
        || not (refreshable_match (snapshot m.http_params) request_http_params)
    then (true, m)
    else if not has_context
    then (false, m)
    else or_then (reload first m) (λ m'.
      or_then (reload locked m') (λ m''. if not refreshed then (false, m'') else reload after m''))

-- What CreateS3RequestData takes a copy of.
pub record S3RequestData : Type 0 where
  pub auth_params : S3AuthParams
  pub refreshable_http_params : S3RefreshableHttpParams

-- The callbacks of RunS3RequestWithAuthRefreshInternal, over a state of theirs. `set_region` assigns the
-- region of the parameters and does not throw.
pub record Callbacks (State : Type 0) : Type 0 where
  pub create_data : State → Result S3RequestData
  pub request : S3RequestData → State → Result (Option Response) × State
  pub refresh_auth_params : S3RequestData → State → Result Bool × State
  pub set_region : Text → State → State

abbrev pub needs_refresh : Option Response → Bool
needs_refresh none = false
needs_refresh (some r) = is_auth_refresh_response r

abbrev pub redirect_of : Option Response → S3AuthParams → Option Text
redirect_of none p = none
redirect_of (some r) p = response_redirect r p

-- One request: its result, whether it is sent again after a refresh, or else the region it is sent to.
pub record Round (State : Type 0) : Type 0 where
  pub result : Result (Option Response)
  pub refreshed : Bool
  pub redirect : Option Text
  pub after : State

-- What leaves the loop with an exception.
abbrev pub thrown : {State : Type 0} → Exception → State → Round State
thrown e s = record { result = throw e; refreshed = false; redirect = none; after = s }

-- The catch handler of the loop, for the exception `e`: a refresh that throws here leaves the loop.
-- Whether there is a redirect does not depend on what the refresh did.
unfoldable pub catch_error :
    {State : Type 0}
    → Callbacks State
    → Bool
    → Bool
    → S3RequestData
    → Exception
    → State
    → Round State
unfolding is_auth_refresh_error error_redirect
catch_error cb retried_auth_refresh retried_region request_data e s =
    let (refreshed, s') =
      if not retried_auth_refresh && is_auth_refresh_error e
      then cb.refresh_auth_params request_data s
      else (ok false, s) in
    elim refreshed [
      | throw again ↦ thrown again s'
      | ok succeeded ↦ record {
        result = throw e;
        refreshed = succeeded;
        redirect = if retried_region then none else error_redirect e request_data.auth_params;
        after = s';
      }
    ]

-- The rest of the try block, for a request that answered: a refresh that throws goes to the handler.
unfoldable pub after_answer :
    {State : Type 0}
    → Callbacks State
    → Bool
    → Bool
    → S3RequestData
    → Option Response
    → State
    → Round State
unfolding is_auth_refresh_response response_redirect catch_error
after_answer cb retried_auth_refresh retried_region request_data answer s =
    let (refreshed, s') =
      if not retried_auth_refresh && needs_refresh answer
      then cb.refresh_auth_params request_data s
      else (ok false, s) in
    elim refreshed [
      | throw e ↦ catch_error cb retried_auth_refresh retried_region request_data e s'
      | ok succeeded ↦ record {
        result = ok answer;
        refreshed = succeeded;
        redirect = if retried_region then none else redirect_of answer request_data.auth_params;
        after = s';
      }
    ]

-- The body of the loop of RunS3RequestWithAuthRefreshInternal. The data of the request is made outside
-- the try block.
unfoldable pub send_once : {State : Type 0} → Callbacks State → Bool → Bool → State → Round State
unfolding after_answer catch_error
send_once cb retried_auth_refresh retried_region s = elim (cb.create_data s) [
  | throw e ↦ thrown e s
  | ok request_data ↦
      let (result, s') = cb.request request_data s in
      elim result [
        | throw e ↦ catch_error cb retried_auth_refresh retried_region request_data e s'
        | ok answer ↦ after_answer cb retried_auth_refresh retried_region request_data answer s'
      ]
]

-- RunS3RequestWithAuthRefreshInternal, on fuel; `spent` is the result when the fuel is spent.
unfoldable pub run_request :
    {State : Type 0}
    → Result (Option Response)
    → Callbacks State
    → ℕ
    → Bool
    → Bool
    → State
    → Result (Option Response) × State
unfolding send_once
run_request spent cb zero retried_auth_refresh retried_region s = (spent, s)
run_request spent cb (suc fuel) retried_auth_refresh retried_region s =
    let sent = send_once cb retried_auth_refresh retried_region s in
    elim sent.refreshed [
      | true ↦ run_request spent cb fuel true retried_region sent.after
      | false ↦ elim sent.redirect [
        | none ↦ (sent.result, sent.after)
        | some region ↦
            run_request spent cb fuel retried_auth_refresh true (cb.set_region region sent.after)
      ]
    ]

abbrev pub run_s3_request :
    {State : Type 0} → Callbacks State → State → Result (Option Response) × State
run_s3_request cb s = run_request (throw (plain internal out_of_fuel)) cb 3 false false s
