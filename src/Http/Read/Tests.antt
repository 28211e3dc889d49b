-- ===== src/Http/Read/Tests.antt =====
-- Reads from a server with a small file.
use haybarn_httpfs.Base
use haybarn_httpfs.Base.{
  ℕ, ◌+◌, ◌-◌, ◌≤◌, min, ◌≡◌, refl, sym, ap, Bool, true, false, Option, none, some, List, [], ◌∷◌,
  arith, ◌==◌, if◌then◌else◌, take, drop, replicate, length-take, codes, to_string,
}
use haybarn_httpfs.Http
use haybarn_httpfs.Http.Types.{
  http, internal, request_failed, out_of_fuel, Exception, Response, ok, throw, plain,
}
use haybarn_httpfs.Http.Handle.{FileHandle, Session, HttpUtil}
use haybarn_httpfs.Http.Range.{responded, data_arrived, Server, on_data, on_response, on_event}
use haybarn_httpfs.Http.Range.Complete.{received}
use haybarn_httpfs.Http.Range.Frame.{view}
use haybarn_httpfs.Http.Range.Serves.{ServesFile}
use haybarn_httpfs.Http.Read.{begin_reading, read_loop, read_internal}
use haybarn_httpfs.Http.Read.Steps.{Buffered}
use haybarn_httpfs.Http.Read.Exact.{IsExact, read_internal-IsExact, read_loop-three_rounds}

abbrev util : HttpUtil
util = record {
  insert_header = Base.insert;
  format_http_date = λ t. to_string t;
  http_exception = λ m r. plain http m;
  create_client = λ s. s.requests + 100;
  elapsed = λ s. 1;
}

abbrev file : List ℕ
file = 10 ∷ 11 ∷ 12 ∷ 13 ∷ 14 ∷ 15 ∷ []

abbrev handle : FileHandle
handle = record {
  path = codes "http://h/f";
  http_params = record {
    user_agent = [];
    extra_headers = [];
    pre_merged_headers = false;
    unsafe_disable_etag_checks = false;
    s3_version_id_pinning = false;
    auto_fallback_to_full_download = true;
    force_download = false;
    force_download_threshold = 0;
  };
  flags = record {
    open_for_reading = true;
    open_for_writing = false;
    direct_io = false;
    require_parallel_access = false;
    create_file_if_not_exists = false;
    overwrite_existing_file = false;
  };
  client_cache = record { clients = []; generation = 0 };
  length = 6;
  last_modified = 0;
  etag = [];
  version_id = [];
  force_full_download = false;
  initialized = true;
  auto_fallback_to_full_file_download = true;
  write_overwrite_mode = false;
  cached_file_handle = none;
  buffer_available = 0;
  buffer_idx = 0;
  file_offset = 0;
  buffer_start = 0;
  buffer_end = 0;
  read_buffer = replicate 4 0;
  range_request_statistics = [];
}

abbrev session : Session
session = record { handle = handle; cached_files = []; global_metadata_cache = none; requests = 0 }

abbrev partial_content : Response
partial_content = record {
  status = 206;
  headers = [];
  body = [];
  success = true;
  request_error = none;
}

-- Sends the bytes of the range.
abbrev server : Server
server k client q = record {
  events =
      responded partial_content
      ∷ data_arrived (take (min 6 (q.last + 1 - q.first)) (drop q.first file))
      ∷ [];
  response = some partial_content;
  on_throw = throw;
  client = client;
}

abbrev succeeded : Option Response → Bool
succeeded none = true
succeeded (some r) = r.success

length-take-le : (n : ℕ) (l : List ℕ) → Base.length (take n l) ≤ n
length-take-le n l = omega (arith, length-take n l)

server-ServesFile : ServesFile file server
server-ServesFile = record {
  fits = λ k client q.
      (omega (arith, length-take-le (min 6 (q.last + 1 - q.first)) (drop q.first file)), tt);
  reports = λ k client q. record { reports = λ e r h. cc };
  sends = λ k client q. (min 6 (q.last + 1 - q.first), unfold received in refl);
  succeeds = λ k client q r got no_error accepted. ap succeeded (sym got);
}

abbrev error_of : Response → Exception
error_of r = plain http request_failed

abbrev buffer : List ℕ
buffer = 0 ∷ 0 ∷ 0 ∷ []

nothing_buffered : Buffered file (view session)
nothing_buffered = record {
  whole = refl;
  range_requests = refl;
  ordered = omega arith;
  fits = omega arith;
  window = refl;
}

read_three : (read_internal util error_of server 3 2 buffer session).0 ≡ ok true
unfolding read_internal on_event on_response Http.ClientCache.get_client Base.lookup on_data
    Base.splice Http.ClientCache.store_client
read_three = refl

read_internal-IsExact_example :
    IsExact util error_of server file server-ServesFile
      (omega arith)
      3
      2
      (omega arith)
      buffer
      session
      nothing_buffered
      refl
      (read_internal util error_of server 3 2 buffer session)
read_internal-IsExact_example =
    read_internal-IsExact util error_of server file server-ServesFile (omega arith) 3 2
      (omega arith) buffer session nothing_buffered refl read_three

read_loop-three_rounds_example :
    read_loop util error_of server (ok false) 10 2 (begin_reading 3 2 buffer session)
    ≡ read_loop util error_of server
        (throw (plain internal out_of_fuel))
        3
        2
        (begin_reading 3 2 buffer session)
read_loop-three_rounds_example =
    read_loop-three_rounds util error_of server file server-ServesFile (omega arith) 3 2
      (omega arith) buffer session nothing_buffered refl (ok false) 7

-- A second server, which sends at most one byte for its second request.
abbrev failing : Server
failing k client q = record {
  events =
      responded partial_content
      ∷ data_arrived
          (take (min (if k == 1 then 1 else 6) (q.last + 1 - q.first)) (drop q.first file))
      ∷ [];
  response = some partial_content;
  on_throw = throw;
  client = client;
}

-- The read buffer holds the first four bytes, then a read from the fifth on fails.
abbrev after_two_reads : Session
after_two_reads =
    let (_, _, s) = read_internal util error_of failing 1 0 (0 ∷ []) session in
    let (_, _, s') = read_internal util error_of failing 1 4 (0 ∷ []) s in s'

-- A third read of the second byte, 11, takes a zero out of the overwritten read buffer.
stale_window :
    let (result, bytes, _) = read_internal util error_of failing 1 1 (0 ∷ []) after_two_reads in
    (result ≡ ok true) × (bytes ≡ 0 ∷ [])
unfolding read_internal on_event on_response Http.ClientCache.get_client Base.lookup on_data
    Base.splice Http.ClientCache.store_client
stale_window = (refl, refl)
