-- ===== src/Http/Handle.antt =====
-- HTTPFileHandle and HTTPFSParams (include/httpfs.hpp), with what DuckDB gives them.
use haybarn_httpfs.Base.{ℕ, Bool, ◌||◌, Option, List, Text}
use haybarn_httpfs.Http.Types.{Message, Exception, Response}
use haybarn_httpfs.Http.ClientCache.{ClientCache}
use haybarn_httpfs.Http.MetadataCache.{MetadataCache}
use haybarn_httpfs.Http.CachedFile.{CachedFile}

-- HTTPFSParams, the fields that the request code reads.
pub record Params : Type 0 where
  pub user_agent : Text
  pub extra_headers : List (Text × Text)
  pub pre_merged_headers : Bool
  pub unsafe_disable_etag_checks : Bool
  pub s3_version_id_pinning : Bool
  pub auto_fallback_to_full_download : Bool
  pub force_download : Bool
  pub force_download_threshold : ℕ

-- FileOpenFlags.
pub record Flags : Type 0 where
  pub open_for_reading : Bool
  pub open_for_writing : Bool
  pub direct_io : Bool
  pub require_parallel_access : Bool
  pub create_file_if_not_exists : Bool
  pub overwrite_existing_file : Bool

pub record RangeRequestStatistics : Type 0 where
  pub offset : ℕ
  pub length : ℕ
  pub duration : ℕ

-- `cached_file_handle` is the file of a full download, and `read_buffer` all the bytes of the buffer,
-- whether they are in use or not. Positions and lengths are below 2^63, so their sums do not wrap.
pub record FileHandle : Type 0 where
  pub path : Text
  pub http_params : Params
  pub flags : Flags
  pub client_cache : ClientCache
  pub length : ℕ
  pub last_modified : ℕ
  pub etag : Text
  pub version_id : Text
  pub force_full_download : Bool
  pub initialized : Bool
  pub auto_fallback_to_full_file_download : Bool
  pub write_overwrite_mode : Bool
  pub cached_file_handle : Option CachedFile
  pub buffer_available : ℕ
  pub buffer_idx : ℕ
  pub file_offset : ℕ
  pub buffer_start : ℕ
  pub buffer_end : ℕ
  pub read_buffer : List ℕ
  pub range_request_statistics : List RangeRequestStatistics

-- What a request changes: the handle, the file system's global metadata cache, and the cached files of
-- HTTPState. `requests` counts the requests that were sent.
pub record Session : Type 0 where
  pub handle : FileHandle
  pub cached_files : List (Text × CachedFile)
  pub global_metadata_cache : Option MetadataCache
  pub requests : ℕ

abbrev pub maximum_read_buffer_len : ℕ
maximum_read_buffer_len = 33554432

unfoldable pub skip_buffer : FileHandle → Bool
skip_buffer h = h.flags.direct_io || h.flags.require_parallel_access

-- DuckDB's part: HTTPHeaders::Insert, the formatting of a date, the constructor of HTTPException from
-- a response, the client that CreateClient sets up, and the time that a request took.
pub record HttpUtil : Type 0 where
  pub insert_header : Text → Text → List (Text × Text) → List (Text × Text)
  pub format_http_date : ℕ → Text
  pub http_exception : Message → Response → Exception
  pub create_client : Session → ℕ
  pub elapsed : Session → ℕ
