-- ===== src/Curl/Options.antt =====
-- The state of HTTPFSCurlClient (httpfs_curl_client.cpp) and its requests, the options that they set on
-- the libcurl handle, and the cancellation of a transfer.
use haybarn_httpfs.Base.{
  ℕ, Bool, true, false, ◌&&◌, ◌||◌, Option, none, some, List, [], ◌∷◌, ◌++◌, ltb, ◌==◌,
  if◌then◌else◌, length, Text, codes, starts_with,
}
use haybarn_httpfs.Http.Handle.{Params}
use haybarn_httpfs.Curl.Headers.{Headers, CurlResponse, new_response, RequestInfo, identity}

-- The kind of request that a handle of libcurl is set to make.
pub data Mode : Type 0 where
  get_mode head_mode post_mode : Mode

-- The options that requests set on the handle, each as it was set last, and the mode that they leave
-- the handle in. `cancellation` is the flag that the progress callback reads, by a number, and
-- `post_field_size` is none where CURLOPT_POSTFIELDSIZE was never set.
pub record Easy : Type 0 where
  pub accept_encoding : Option Text
  pub mode : Mode
  pub no_body : Bool
  pub custom_request : Option Text
  pub post_fields : Option Text
  pub post_field_size : Option ℕ
  pub target : Text
  pub http_headers : List Text
  pub cancellation : Option ℕ

-- The counters of HTTPState.
pub record Counters : Type 0 where
  pub get_count : ℕ
  pub put_count : ℕ
  pub head_count : ℕ
  pub delete_count : ℕ
  pub post_count : ℕ
  pub total_bytes_received : ℕ
  pub total_bytes_sent : ℕ

pub record Client : Type 0 where
  pub easy : Easy
  pub state : Option Counters
  pub info : RequestInfo

-- BaseRequest of DuckDB with the fields of its five kinds.
pub record Request : Type 0 where
  pub url : Text
  pub path : Text
  pub headers : Headers
  pub params : Params
  pub cancellation : Option ℕ
  pub buffer_in : Text
  pub content_type : Text
  pub send_post_as_get_request : Bool
  pub response_handler : Option (CurlResponse → Bool)
  pub has_content_handler : Bool

-- What curl->Execute() does: its code, the status, the header lines and the pieces of the body that it
-- hands to the callbacks, and whether the flag is set when it is read afterwards.
pub record Answer : Type 0 where
  pub res : ℕ
  pub response_code : ℕ
  pub lines : List Text
  pub chunks : List Text
  pub flag_is_set : Bool

abbrev pub Curl : Type 0
Curl = Easy → Answer

-- A request that returned. `handed` is what content_handler was called with.
pub record Ran : Type 0 where
  pub response : CurlResponse
  pub executed : Easy
  pub handed : Option Text
  pub buffer_out : Text
  pub after : Client

unfoldable pub normalize_path_to_be_added : Text → Text
normalize_path_to_be_added [] = []
normalize_path_to_be_added (c ∷ path) =
    let shorter = normalize_path_to_be_added path in
    if ltb 2 (length (c ∷ path))
      && (starts_with (c ∷ path) (codes "//") || starts_with (c ∷ path) (codes "./"))
    then shorter
    else c ∷ path

-- None of the counters reaches 2^64.
abbrev pub counted : (Counters → Counters) → Client → Client
counted f c = elim c.state [ none ↦ c | some n ↦ record c { state = some (f n) } ]

abbrev pub set_easy : (Easy → Easy) → Client → Client
set_easy f c = record c { easy = f c.easy }

unfoldable pub reset_request_info : Client → Client
reset_request_info c = record c {
  info = record {
    url = [];
    body = [];
    response_code = 0;
    header_collection = [];
    sent_identity_only = false;
  };
  easy = record c.easy { cancellation = none };
}

unfoldable pub require_identity_response : Client → Client
require_identity_response c = record c {
  easy = record c.easy { accept_encoding = some identity };
  info = record c.info { sent_identity_only = true };
}

unfoldable pub allow_compressed_response : Bool → Client → Client
unfolding require_identity_response
allow_compressed_response has_range_header c =
    if has_range_header then require_identity_response c else record c {
      easy = record c.easy { accept_encoding = some [] };
      info = record c.info { sent_identity_only = false };
    }

unfoldable pub arm_cancellation : Request → Client → Client
arm_cancellation r c = elim r.cancellation [
  | none ↦ c
  | some flag ↦ record c { easy = record c.easy { cancellation = some flag } }
]

-- CURLE_ABORTED_BY_CALLBACK.
abbrev pub aborted_by_callback : ℕ
aborted_by_callback = 42

unfoldable pub check_cancelled : Answer → Request → Text → RequestInfo → Option CurlResponse
check_cancelled answer r method info =
    let cancelled : Option CurlResponse =
      if answer.flag_is_set
      then some (record (new_response 0) {
        cancelled = true;
        request_error = codes "HTTP " ++ method ++ codes " request was cancelled";
        url = info.url;
      })
      else none in
    if answer.res == aborted_by_callback
    then elim r.cancellation [ none ↦ none | some flag ↦ cancelled ]
    else none

abbrev pub octet_stream : Text
octet_stream = codes "Content-Type: application/octet-stream"

-- What curl_easy_setopt does for the options that imply others, as libcurl documents it: CURLOPT_NOBODY
-- makes a HEAD request, and switched off turns one into a GET request.
abbrev pub without_head : Mode → Mode
without_head get_mode = get_mode
without_head head_mode = get_mode
without_head post_mode = post_mode

abbrev pub set_no_body : Bool → Easy → Easy
set_no_body true e = record e { no_body = true; mode = head_mode }
set_no_body false e = record e { no_body = false; mode = without_head e.mode }

-- CURLOPT_HTTPGET makes a GET request and switches CURLOPT_NOBODY off; switched off it does nothing.
abbrev pub set_http_get : Bool → Easy → Easy
set_http_get true e = record e { no_body = false; mode = get_mode }
set_http_get false e = e

-- CURLOPT_POST makes a POST request and switches CURLOPT_NOBODY off; switched off it makes a GET request.
abbrev pub set_post : Bool → Easy → Easy
set_post true e = record e { no_body = false; mode = post_mode }
set_post false e = record e { mode = get_mode }

-- CURLOPT_POSTFIELDS implies CURLOPT_POST, whichever value it is given; with CURLOPT_POSTFIELDSIZE.
abbrev pub set_post_fields : Option Text → ℕ → Easy → Easy
set_post_fields fields size e = record e {
  mode = post_mode;
  post_fields = fields;
  post_field_size = some size;
}

-- The options that each request sets before the transfer and after it.
abbrev pub set_target : Request → List Text → Easy → Easy
set_target r lines e = record e { target = normalize_path_to_be_added r.path; http_headers = lines }

abbrev pub get_options : Request → List Text → Easy → Easy
get_options r lines e = set_target r lines (set_http_get true (set_no_body false e))

abbrev pub put_options : Request → List Text → Easy → Easy
put_options r lines e =
    set_post_fields (some r.buffer_in) (length r.buffer_in)
      (record (set_target r (lines ++ (codes "Content-Type: " ++ r.content_type) ∷ []) e) {
        custom_request = some (codes "PUT");
      })

abbrev pub head_options : Request → List Text → Easy → Easy
head_options r lines e = set_target r lines (set_http_get false (set_no_body true e))

abbrev pub delete_options : Request → List Text → Easy → Easy
delete_options r lines e = record (set_target r lines e) { custom_request = some (codes "DELETE") }

abbrev pub post_options : Request → List Text → Easy → Easy
post_options r lines e =
    let targeted = set_target r lines e in
    set_post_fields (some r.buffer_in) (length r.buffer_in) (
      if r.send_post_as_get_request
      then record targeted { custom_request = some (codes "GET") }
      else set_post true targeted)

abbrev pub restore_put : Easy → Easy
restore_put e = set_post_fields none 0 (record e { custom_request = none })

abbrev pub restore_head : Easy → Easy
restore_head e = set_http_get true (set_no_body false e)

abbrev pub restore_delete : Easy → Easy
restore_delete e = record e { custom_request = none }

abbrev pub restore_post : Easy → Easy
restore_post e = set_post false (set_post_fields none 0 (record e { custom_request = none }))
