-- ===== src/Http/Open.antt =====
-- Opening a file (httpfs.cpp): HTTPFileHandle::Initialize with the metadata cache.
mod Reopens
mod Tests
use haybarn_httpfs.Base.{
  ℕ, Bool, true, false, ◌&&◌, ◌||◌, not, Option, none, some, [], ltb, ◌==◌, if◌then◌else◌,
  replicate,
}
use haybarn_httpfs.Base
use haybarn_httpfs.Http.Types.{Exception, Response, Result, ok, throw}
use haybarn_httpfs.Http.Handle.{FileHandle, Session, skip_buffer, HttpUtil}
use haybarn_httpfs.Http.MetadataCache.{CacheEntry, MetadataCache, find}
use haybarn_httpfs.Http.MetadataCache as Cache
use haybarn_httpfs.Http.Range.{Server}
use haybarn_httpfs.Http.Download.{FileServer, full_download}
use haybarn_httpfs.Http.Load.{HeadServer, InfoUtil, find_cached_file, load_file_info}

-- It does not unfold of itself, since no proof may build a buffer of a mebibyte.
unfoldable pub initial_read_buffer_len : ℕ
initial_read_buffer_len = 1048576

-- The cache that TryGetMetadataCache chose.
pub data CacheChoice : Type 0 where
  global_cache query_cache no_cache : CacheChoice

-- The session with the cache of the query.
pub record Opening : Type 0 where
  pub session : Session
  pub choice : CacheChoice
  pub of_query : MetadataCache

abbrev pub chosen_cache : CacheChoice → Opening → Option MetadataCache
chosen_cache global_cache o = o.session.global_metadata_cache
chosen_cache query_cache o = some o.of_query
chosen_cache no_cache o = none

abbrev pub current_cache : Opening → Option MetadataCache
current_cache o = chosen_cache o.choice o

-- The entry of the path in the chosen cache.
abbrev pub known_entry : Opening → Option CacheEntry
known_entry o = elim (current_cache o) [ none ↦ none | some c ↦ find o.session.handle.path c ]

abbrev pub store_cache : CacheChoice → MetadataCache → Opening → Opening
store_cache global_cache c o = record o {
  session = record o.session { global_metadata_cache = some c };
}
store_cache query_cache c o = record o { of_query = c }
store_cache no_cache c o = o

-- A change of the chosen cache, where there is one.
abbrev pub on_cache : (MetadataCache → MetadataCache) → Opening → Opening
on_cache f o = elim (current_cache o) [ none ↦ o | some c ↦ store_cache o.choice (f c) o ]

abbrev pub is_some {ℓ} : {A : Type ℓ} → Option A → Bool
is_some none = false
is_some (some a) = true

unfoldable pub get_cache_entry : FileHandle → CacheEntry
get_cache_entry h = record {
  length = h.length;
  last_modified = h.last_modified;
  etag = h.etag;
  version_id = h.version_id;
  properties = [];
}

unfoldable pub initialize_from_cache_entry : CacheEntry → FileHandle → FileHandle
initialize_from_cache_entry e h = record h {
  last_modified = e.last_modified;
  length = e.length;
  etag = e.etag;
  version_id = e.version_id;
}

unfoldable pub allocate_read_buffer : FileHandle → FileHandle
allocate_read_buffer h = record h { read_buffer = replicate initial_read_buffer_len 0 }

module _ (util : HttpUtil) (info : InfoUtil) (get_http_error : Response → Exception)
    (head_server : HeadServer) (server : Server) (file_server : FileServer) where
  abbrev pub at_session : Opening → Result (Unit {0}) × Session → Result (Unit {0}) × Opening
  at_session o (result, s) = (result, record o { session = s })

  -- The end of Initialize for a file that is read: a full download, or the entry in the cache and the
  -- read buffer.
  unfoldable pub finish_reading : Bool → Opening → Result (Unit {0}) × Opening
  unfolding full_download get_cache_entry allocate_read_buffer Cache.insert skip_buffer
  finish_reading should_write_cache o =
      let h = o.session.handle in
      if h.length == 0
        || ((ltb h.length h.http_params.force_download_threshold && not (h.length == 0))
            || h.force_full_download)
      then at_session o (full_download util get_http_error file_server o.session)
      else (let kept =
            if should_write_cache
            then on_cache (Cache.insert h.path (get_cache_entry h)) o
            else o in
          (
            ok tt,
            if skip_buffer h then kept else record kept {
              session = record kept.session { handle = allocate_read_buffer kept.session.handle };
            },
          ))

  -- What follows LoadFileInfo.
  unfoldable pub finish_opening : Bool → Opening → Result (Unit {0}) × Opening
  unfolding finish_reading Cache.erase
  finish_opening should_write_cache o =
      let (finished, o') =
        if o.session.handle.flags.open_for_reading
        then finish_reading should_write_cache o
        else (ok tt, o) in
      elim finished [
        | throw e ↦ (throw e, o')
        | ok _ ↦ (
          ok tt,
          if o'.session.handle.flags.open_for_writing
              then on_cache (Cache.erase o'.session.handle.path) o'
              else o',
        )
      ]

  -- A file that is opened from its entry in the cache.
  unfoldable pub open_known : CacheEntry → Opening → Opening
  unfolding initialize_from_cache_entry find_cached_file allocate_read_buffer skip_buffer
  open_known e o =
      let h = initialize_from_cache_entry e o.session.handle in
      let (cached, s) = find_cached_file (record o.session { handle = h }) in
      let h' : FileHandle = elim cached [
        | none ↦ s.handle
        | some file ↦ record s.handle { cached_file_handle = some file }
      ] in
      record o {
        session = record s { handle = if skip_buffer h' then h' else allocate_read_buffer h' };
      }

  -- HTTPFileHandle::Initialize.
  unfoldable pub initialize : Opening → Result (Unit {0}) × Opening
  unfolding full_download find open_known load_file_info finish_opening
  initialize o =
      let flags = o.session.handle.flags in
      let (loaded, s) = load_file_info util info get_http_error head_server server o.session in
      let opened : Result (Unit {0}) × Opening = elim loaded [
        | throw e ↦ (throw e, record o { session = s })
        | ok _ ↦
            finish_opening (flags.open_for_reading && is_some (current_cache o))
              (record o { session = s })
      ] in
      if not flags.open_for_reading
      then opened
      else if o.session.handle.http_params.force_download
      then at_session o (full_download util get_http_error file_server o.session)
      else elim (known_entry o) [ none ↦ opened | some e ↦ (ok tt, open_known e o) ]
