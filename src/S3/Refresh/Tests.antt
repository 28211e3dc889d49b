-- ===== src/S3/Refresh/Tests.antt =====
-- A request that is redirected, then refreshed.
use haybarn_httpfs.Base.{
  ℕ, ◌+◌, ◌≡◌, refl, true, false, none, some, [], ◌∷◌, ◌==◌, if◌then◌else◌, codes, text_eq, lookup,
}
use haybarn_httpfs.Http.Types.{Response, ok}
use haybarn_httpfs.S3.Auth.{S3AuthParams, default_auth_params}
use haybarn_httpfs.S3.Refresh.{
  S3RefreshableHttpParams, HttpfsParams, Material, try_refresh_auth_material, Callbacks,
  run_request, run_s3_request,
}
use haybarn_httpfs.S3.Refresh.Reloads.{IsRefresh, try_refresh_auth_material-IsRefresh}
use haybarn_httpfs.S3.Refresh.Rounds.{run_s3_request-three_requests}

abbrev connection : S3RefreshableHttpParams
connection = record {
  http_proxy = [];
  http_proxy_port = 0;
  http_proxy_username = [];
  http_proxy_password = [];
  extra_headers = [];
  override_verify_ssl = false;
  verify_ssl = true;
  bearer_token = [];
}

abbrev params : HttpfsParams
params = record { refreshable = connection; pre_merged_headers = true }

abbrev material : Material
material = record {
  auth_params = default_auth_params;
  http_params = params;
  client_cache = some (record { clients = 7 ∷ []; generation = 0 });
}

abbrev rotated : S3AuthParams
rotated = record default_auth_params { secret_access_key = codes "new" }

try_refresh_auth_material-IsRefresh_example : IsRefresh default_auth_params connection material (
    try_refresh_auth_material true true none
      (some (rotated, params))
      none
      false
      default_auth_params
      connection
      false
      material)
try_refresh_auth_material-IsRefresh_example =
    try_refresh_auth_material-IsRefresh default_auth_params connection false true true none
      (some (rotated, params)) none false material

abbrev moved : Response
moved = record {
  status = 301;
  headers = (codes "x-amz-bucket-region", codes "eu") ∷ [];
  body = [];
  success = false;
  request_error = none;
}

abbrev denied : Response
denied = record { status = 403; headers = []; body = []; success = false; request_error = none }

-- The state counts the requests.
abbrev callbacks : Callbacks ℕ
callbacks = record {
  create_data =
      λ n. ok (record { auth_params = default_auth_params; refreshable_http_params = connection });
  request = λ d n. (ok (some (if n == 0 then moved else denied)), n + 1);
  refresh_auth_params = λ d n. (ok true, n);
  set_region = λ region n. n;
}

run_s3_request-three_requests_example :
    run_request (ok none) callbacks 5 false false 0 ≡ run_s3_request callbacks 0
run_s3_request-three_requests_example = run_s3_request-three_requests callbacks (ok none) 2 0

-- Three requests are sent.
three_sent : (run_s3_request callbacks 0).1 ≡ 3
unfolding run_request lookup text_eq
three_sent = refl
