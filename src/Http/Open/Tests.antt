-- ===== src/Http/Open/Tests.antt =====
-- A file that is opened twice, from a server that answers HEAD.
use haybarn_httpfs.Base
use haybarn_httpfs.Base.{
  ◌+◌, ◌≡◌, refl, true, false, none, some, [], ◌∷◌, codes, text_eq, lookup, to_string, read_digits,
  stoull,
}
use haybarn_httpfs.Http.Types.{http, request_failed, Exception, Response, Result, ok, throw, plain}
use haybarn_httpfs.Http.Handle.{FileHandle, Session, HttpUtil}
use haybarn_httpfs.Http.CachedFile.{empty_file}
use haybarn_httpfs.Http.ClientCache.{get_client}
use haybarn_httpfs.Http.MetadataCache.{MetadataCache, find}
use haybarn_httpfs.Http.Range.{Exchange, Server}
use haybarn_httpfs.Http.Download.{FileServer}
use haybarn_httpfs.Http.Load.{
  HeadServer, InfoUtil, find_cached_file, head_request, take_file_info, judge_head,
  request_file_info, load_file_info,
}
use haybarn_httpfs.Http.Open.{query_cache, Opening, initialize}
use haybarn_httpfs.Http.Open.Reopens.{with_handle, metadata, Loads, reopen}

abbrev util : HttpUtil
util = record {
  insert_header = Base.insert;
  format_http_date = λ t. to_string t;
  http_exception = λ m r. plain http m;
  create_client = λ s. s.requests + 100;
  elapsed = λ s. 1;
}

abbrev handle : FileHandle
handle = record {
  path = codes "http://h/f";
  http_params = record {
    user_agent = [];
    extra_headers = [];
    pre_merged_headers = false;
    unsafe_disable_etag_checks = false;
    s3_version_id_pinning = false;
    auto_fallback_to_full_download = true;
    force_download = false;
    force_download_threshold = 0;
  };
  flags = record {
    open_for_reading = true;
    open_for_writing = false;
    direct_io = false;
    require_parallel_access = false;
    create_file_if_not_exists = false;
    overwrite_existing_file = false;
  };
  client_cache = record { clients = []; generation = 0 };
  length = 0;
  last_modified = 0;
  etag = [];
  version_id = [];
  force_full_download = false;
  initialized = false;
  auto_fallback_to_full_file_download = true;
  write_overwrite_mode = false;
  cached_file_handle = none;
  buffer_available = 0;
  buffer_idx = 0;
  file_offset = 0;
  buffer_start = 0;
  buffer_end = 0;
  read_buffer = [];
  range_request_statistics = [];
}

abbrev empty : MetadataCache
empty = record { map = []; flush_on_query_end = true; shared = true }

abbrev opening : Opening
opening = record {
  session = record {
    handle = handle;
    cached_files = [];
    global_metadata_cache = none;
    requests = 0;
  };
  choice = query_cache;
  of_query = empty;
}

abbrev found : Response
found = record {
  status = 200;
  headers =
      (codes "Content-Length", codes "10")
      ∷ (codes "Last-Modified", codes "now")
      ∷ (codes "ETag", codes "v1")
      ∷ [];
  body = [];
  success = true;
  request_error = none;
}

abbrev head_server : HeadServer
head_server k client headers = record { answer = ok (some found); client = client }

abbrev info : InfoUtil
info = record { optional_idx = some; parse_time = λ t. some 7 }

abbrev error_of : Response → Exception
error_of r = plain http request_failed

abbrev nothing : Exchange
nothing = record { events = []; response = none; on_throw = throw; client = 0 }

abbrev server : Server
server k client q = nothing

abbrev file_server : FileServer
file_server k client headers = nothing

abbrev first_load : Result (Unit {0}) × Session
first_load = load_file_info util info error_of head_server server opening.session

loads : Loads util info error_of head_server server file_server opening first_load.1 empty
unfolding load_file_info find_cached_file request_file_info head_request judge_head take_file_info
    lookup text_eq find empty_file get_client stoull read_digits
loads = record {
  reads = refl;
  not_downloaded = refl;
  not_known = refl;
  has_cache = refl;
  loaded = refl;
  in_ranges = record {
    reads = refl;
    not_written = refl;
    not_empty = refl;
    not_small = refl;
    not_forced = refl;
  };
  keeps_cache = refl;
}

reopen_example :
    let run = initialize util info error_of head_server server file_server in
    let again = run (with_handle handle (run opening).1) in
    ((run opening).0 ≡ ok tt)
    × (again.0 ≡ ok tt)
    × (metadata again.1.session.handle ≡ metadata first_load.1.handle)
    × (again.1.session.requests ≡ first_load.1.requests)
unfolding load_file_info find_cached_file request_file_info head_request judge_head take_file_info
    lookup text_eq empty_file get_client
reopen_example =
    reopen util info error_of head_server server file_server opening first_load.1 empty handle loads
      refl refl refl
