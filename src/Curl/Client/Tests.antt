-- ===== src/Curl/Client/Tests.antt =====
-- A HEAD and a range request of one client, the second with a cancellation flag.
use haybarn_httpfs.Base.{
  ◌+◌, refl, true, false, ◌&&◌, Option, none, some, List, [], ◌∷◌, ◌++◌, map, leb, if◌then◌else◌,
  concat, codes, text_eq, starts_with, find_first, to_string,
}
use haybarn_httpfs.Http.Handle.{Params}
use haybarn_httpfs.Curl.Headers.{
  Headers, CurlUtil, without_last, trim_line, insert_last, add_header, request_header_callback,
  collect_lines, new_response,
}
use haybarn_httpfs.Curl.Options.{get_mode, Client, Request, Curl, Ran}
use haybarn_httpfs.Curl.Client.{get}
use haybarn_httpfs.Curl.Client.Calls.{getting, heading, Call, carried, IsIdle, Collects, run}
use haybarn_httpfs.Curl.Client.Sequences.{Returns, run-Returns}
use haybarn_httpfs.Curl.Client.Handed.{IsHanded, get-IsHanded}

abbrev util : CurlUtil
util = record {
  lower = λ s. map (λ c. if leb 65 c && leb c 90 then c + 32 else c) s;
  insert_header = λ k v h. h ++ (k, v) ∷ [];
  status_message = λ status. to_string status;
  strerror = λ res. to_string res;
}

abbrev params : Params
params = record {
  user_agent = [];
  extra_headers = [];
  pre_merged_headers = false;
  unsafe_disable_etag_checks = false;
  s3_version_id_pinning = false;
  auto_fallback_to_full_download = true;
  force_download = false;
  force_download_threshold = 0;
}

abbrev range_request : Request
range_request = record {
  url = codes "https://h/f";
  path = codes "//f";
  headers = (codes "Range", codes "bytes=0-2") ∷ [];
  params = params;
  cancellation = some 3;
  buffer_in = [];
  content_type = [];
  send_post_as_get_request = false;
  response_handler = none;
  has_content_handler = true;
}

abbrev heading_request : Request
heading_request = record range_request { headers = []; cancellation = none }

abbrev curl : Curl
curl easy = record {
  res = 0;
  response_code = 206;
  lines = codes "HTTP/2 206" ∷ codes "ETag: v1" ∷ [];
  chunks = codes "ab" ∷ codes "c" ∷ [];
  flag_is_set = false;
}

abbrev client : Client
client = record {
  easy = record {
    accept_encoding = none;
    mode = get_mode;
    no_body = false;
    custom_request = none;
    post_fields = none;
    post_field_size = none;
    target = [];
    http_headers = [];
    cancellation = none;
  };
  state = none;
  info = record {
    url = [];
    body = [];
    response_code = 0;
    header_collection = [];
    sent_identity_only = false;
  };
}

client-IsIdle : IsIdle client.easy
client-IsIdle = record { no_body = refl; custom_request = refl; post_fields = refl }

abbrev collected : List Headers
collected =
    ((codes "__RESPONSE_STATUS__", codes "HTTP/2 206") ∷ (codes "etag", codes "v1") ∷ []) ∷ []

curl-Collects : Collects util curl
unfolding collect_lines request_header_callback add_header trim_line without_last starts_with
    find_first insert_last
curl-Collects easy = (collected, refl)

abbrev calls : List Call
calls =
    record { method = heading; request = heading_request; curl = curl }
    ∷ record { method = getting; request = range_request; curl = curl }
    ∷ []

run-Returns_example : Returns util calls (carried client.easy) (run util calls client)
run-Returns_example =
    run-Returns util calls client client-IsIdle (curl-Collects, (curl-Collects, tt))

abbrev result : Option Ran
result = get util curl range_request client

abbrev got : Ran
got = elim result [
  | some ran ↦ ran
  | none ↦ record {
    response = new_response 0;
    executed = client.easy;
    handed = none;
    buffer_out = [];
    after = client;
  }
]

get-IsHanded_example : IsHanded util (curl got.executed) range_request got (codes "abc")
unfolding get find_first text_eq concat
get-IsHanded_example = get-IsHanded util curl range_request client got (codes "abc") refl refl
