-- ===== src/S3/Auth/Region.antt =====
-- The region of a request, and the endpoint that goes with it.
use haybarn_httpfs.Base.{
  ◌≡◌, true, false, ◌++◌, arith, if◌then◌else◌, Text, codes, is_empty, starts_with,
  ends_with-append,
}
use haybarn_httpfs.S3.Auth.{
  S3AuthParams, endpoint_is_aws, regional_endpoint, initialize_endpoint, set_region,
}

-- The endpoint of a region is one of AWS.
endpoint_is_aws-regional : (region : Text) → endpoint_is_aws (regional_endpoint region) ≡ true
unfolding endpoint_is_aws starts_with
endpoint_is_aws-regional region =
    ground (arith, ends_with-append (codes "s3." ++ region) (codes ".amazonaws.com"))

-- A later region replaces an earlier one, in the endpoint as well: what a request was redirected to
-- before leaves no trace. Neither region is empty.
pub set_region-set_region :
    (p : S3AuthParams) (first second : Text)
    → is_empty first ≡ false
    → is_empty second ≡ false
    → set_region second (set_region first p) ≡ set_region second p
unfolding set_region initialize_endpoint
set_region-set_region p first second some_first some_second =
    ground (arith, some_first, some_second, endpoint_is_aws-regional first)

-- SetRegion on an endpoint of AWS gives the region's endpoint, which is one of AWS again, and leaves
-- any other endpoint alone. The region is not empty.
pub set_region-endpoint :
    (p : S3AuthParams) (region : Text)
    → is_empty region ≡ false
    → ((set_region region p).region ≡ region)
      × ((set_region region p).endpoint
          ≡ (if endpoint_is_aws p.endpoint then regional_endpoint region else p.endpoint))
      × (endpoint_is_aws (set_region region p).endpoint ≡ endpoint_is_aws p.endpoint)
unfolding set_region initialize_endpoint
set_region-endpoint p region some_region =
    ground (arith, some_region, endpoint_is_aws-regional region)
