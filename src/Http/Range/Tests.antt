-- ===== src/Http/Range/Tests.antt =====
-- Runs of the range request.
use haybarn_httpfs.Base
use haybarn_httpfs.Base.{
  ◌+◌, ◌≡◌, refl, true, false, none, some, [], ◌∷◌, arith, replicate, codes, text_eq, lookup,
  to_string, stoull,
}
use haybarn_httpfs.Http.Types.{
  http, etag_changed, http_get_error, Exception, Response, ok, throw, plain,
}
use haybarn_httpfs.Http.Handle.{Params, Flags, FileHandle, Session, HttpUtil}
use haybarn_httpfs.Http.Preconditions.{strip_etag_quotes}
use haybarn_httpfs.Http.Range.{
  responded, data_arrived, Exchange, on_data, check_etag, on_response, on_event,
  run_get_range_request, get_range_request,
}
use haybarn_httpfs.Http.Range.Complete.{received, run_get_range_request_complete}
use haybarn_httpfs.Http.Range.Refused.{IsVerdict, get_range_request-refused}

abbrev pub util : HttpUtil
util = record {
  insert_header = Base.insert;
  format_http_date = λ t. to_string t;
  http_exception = λ m r. plain http m;
  create_client = λ s. s.requests + 100;
  elapsed = λ s. 1;
}

abbrev params : Params
params = record {
  user_agent = [];
  extra_headers = [];
  pre_merged_headers = false;
  unsafe_disable_etag_checks = false;
  s3_version_id_pinning = false;
  auto_fallback_to_full_download = true;
  force_download = false;
  force_download_threshold = 0;
}

abbrev flags : Flags
flags = record {
  open_for_reading = true;
  open_for_writing = false;
  direct_io = false;
  require_parallel_access = false;
  create_file_if_not_exists = false;
  overwrite_existing_file = false;
}

abbrev handle : FileHandle
handle = record {
  path = codes "http://h/f";
  http_params = params;
  flags = flags;
  client_cache = record { clients = []; generation = 0 };
  length = 6;
  last_modified = 0;
  etag = codes "\"v1\"";
  version_id = [];
  force_full_download = false;
  initialized = true;
  auto_fallback_to_full_file_download = true;
  write_overwrite_mode = false;
  cached_file_handle = none;
  buffer_available = 0;
  buffer_idx = 0;
  file_offset = 0;
  buffer_start = 0;
  buffer_end = 0;
  read_buffer = replicate 4 0;
  range_request_statistics = [];
}

abbrev pub session : Session
session = record { handle = handle; cached_files = []; global_metadata_cache = none; requests = 0 }

abbrev partial_content : Response
partial_content = record {
  status = 206;
  headers = (codes "Content-Length", codes "3") ∷ (codes "ETag", codes "v1") ∷ [];
  body = [];
  success = true;
  request_error = none;
}

-- The first attempt breaks off after two bytes; the second delivers all three.
abbrev retried : Exchange
retried = record {
  events =
      responded partial_content
      ∷ data_arrived (7 ∷ 8 ∷ [])
      ∷ responded partial_content
      ∷ data_arrived (7 ∷ [])
      ∷ data_arrived (8 ∷ 9 ∷ [])
      ∷ [];
  response = some partial_content;
  on_throw = throw;
  client = 5;
}

abbrev get_error : Response → Session → Exception × Session
get_error r s = (plain http http_get_error, s)

succeeds :
    (run_get_range_request util get_error
      (codes "\"v1\"")
      3
      retried
      (some (0 ∷ 0 ∷ 0 ∷ []))
      session).0
    ≡ ok (some partial_content)
unfolding run_get_range_request on_event on_response lookup text_eq strip_etag_quotes stoull
    Base.read_digits on_data Base.splice
succeeds = refl

-- A response with another ETag is refused.
changed : Response
changed = record partial_content { headers = (codes "ETag", codes "v2") ∷ [] }

refuses_changed :
    (check_etag util (codes "\"v1\"") changed session).0 ≡ throw (plain http etag_changed)
unfolding check_etag changed lookup text_eq strip_etag_quotes
refuses_changed = refl

run_get_range_request_complete_example :
    ((run_get_range_request util get_error
        (codes "\"v1\"")
        3
        retried
        (some (0 ∷ 0 ∷ 0 ∷ []))
        session).1.out
      ≡ some (received [] retried.events))
    × (Base.length (received [] retried.events) ≡ 3)
run_get_range_request_complete_example =
    run_get_range_request_complete util get_error (codes "\"v1\"") 3 retried (0 ∷ 0 ∷ 0 ∷ [])
      session partial_content (omega arith) refl (omega arith) (record { reports = λ e r h. cc })
      succeeds refl refl

-- A file that changed after it was opened, with an entry in the global metadata cache.
abbrev pub known_session : Session
known_session = record session {
  global_metadata_cache = some (record {
    map =
        (
          codes "http://h/f",
          record {
            length = 6;
            last_modified = 0;
            etag = codes "\"v1\"";
            version_id = [];
            properties = [];
          },
        )
        ∷ [];
    flush_on_query_end = true;
    shared = true;
  });
}

abbrev pub precondition_failed : Response
precondition_failed = record {
  status = 412;
  headers = [];
  body = [];
  success = false;
  request_error = none;
}

abbrev pub refused : Exchange
refused = record {
  events = responded precondition_failed ∷ [];
  response = some precondition_failed;
  on_throw = throw;
  client = 5;
}

abbrev pub base_error : Response → Exception
base_error r = plain http http_get_error

get_range_request-refused_example :
    let ran =
      get_range_request util base_error (λ k client request. refused) 0 none 3 known_session in
    (thrown : Exception) × (ran.0 ≡ throw thrown)
    × IsVerdict util base_error precondition_failed known_session ran.1.session thrown
get_range_request-refused_example =
    get_range_request-refused util base_error (λ k client request. refused) 0 3 none known_session
      precondition_failed
      (record { events = refl; response = refl; error_status = refl; no_request_error = refl })
