-- ===== src/Http/Open/Reopens.antt =====
-- What an opening leaves in the metadata cache, and what the next opening of the path makes of it.
use haybarn_httpfs.Base.{
  ℕ, ◌≡◌, refl, ap, ◌∙◌, Bool, true, false, none, some, [], arith, ltb, ◌==◌, if◌then◌else◌, Text,
  text_eq_refl, lookup-insert,
}
use haybarn_httpfs.Http.Types.{Exception, Response, ok}
use haybarn_httpfs.Http.Handle.{FileHandle, Session, skip_buffer, HttpUtil}
use haybarn_httpfs.Http.MetadataCache.{CacheEntry, MetadataCache, find}
use haybarn_httpfs.Http.MetadataCache as Cache
use haybarn_httpfs.Http.Range.{Server}
use haybarn_httpfs.Http.Download.{get_cached_file, FileServer}
use haybarn_httpfs.Http.Load.{HeadServer, InfoUtil, find_cached_file, load_file_info}
use haybarn_httpfs.Http.Open.{
  CacheChoice, global_cache, query_cache, no_cache, Opening, chosen_cache, current_cache,
  known_entry, on_cache, is_some, get_cache_entry, initialize_from_cache_entry,
  allocate_read_buffer, finish_reading, finish_opening, open_known, initialize,
}

abbrev pub with_handle : FileHandle → Opening → Opening
with_handle h o = record o { session = record o.session { handle = h } }

-- What a handle knows of its file.
abbrev pub metadata : FileHandle → ℕ × ℕ × Text × Text
metadata h = (h.length, h.last_modified, h.etag, h.version_id)

-- The handle reads its file piece by piece, and nothing is written.
pub record ReadsRanges (h : FileHandle) : Type 0 where
  pub reads : h.flags.open_for_reading ≡ true
  pub not_written : h.flags.open_for_writing ≡ false
  pub not_empty : (h.length == 0) ≡ false
  pub not_small : ltb h.length h.http_params.force_download_threshold ≡ false
  pub not_forced : h.force_full_download ≡ false

-- The handle but for its read buffer, and the number of requests.
abbrev rest : Opening → FileHandle × ℕ
rest o = (record o.session.handle { read_buffer = [] }, o.session.requests)

-- The chosen cache after a change of it.
current_cache-on_cache :
    (f : MetadataCache → MetadataCache) (c : MetadataCache) (choice : CacheChoice) (s : Session)
    (q : MetadataCache)
    → current_cache (record { session = s; choice = choice; of_query = q }) ≡ some c
    → current_cache (on_cache f (record { session = s; choice = choice; of_query = q }))
      ≡ some (f c)
current_cache-on_cache f c global_cache s q chosen = rw chosen refl
current_cache-on_cache f c query_cache s q chosen = cc
current_cache-on_cache f c no_cache s q chosen = ground arith

rest-on_cache :
    (f : MetadataCache → MetadataCache) (choice : CacheChoice) (s : Session) (q : MetadataCache)
    → rest (on_cache f (record { session = s; choice = choice; of_query = q }))
      ≡ (record s.handle { read_buffer = [] }, s.requests)
rest-on_cache f global_cache s q = ground arith
rest-on_cache f query_cache s q = refl
rest-on_cache f no_cache s q = refl

-- Allocates the read buffer unless it is skipped.
abbrev with_buffer : Bool → Opening → Opening
with_buffer skip o = if skip then o else with_handle (allocate_read_buffer o.session.handle) o

rest-with_buffer : (skip : Bool) (o : Opening) → rest (with_buffer skip o) ≡ rest o
unfolding allocate_read_buffer
rest-with_buffer true o = refl
rest-with_buffer false o = refl

cache-with_handle :
    (h : FileHandle) (o : Opening) → current_cache (with_handle h o) ≡ current_cache o
cache-with_handle h o =
    elim o.choice as (λ x. chosen_cache x (with_handle h o) ≡ chosen_cache x o) [
      | global_cache ↦ refl
      | query_cache ↦ refl
      | no_cache ↦ refl
    ]

cache-with_buffer :
    (skip : Bool) (o : Opening) → current_cache (with_buffer skip o) ≡ current_cache o
cache-with_buffer true o = refl
cache-with_buffer false o = cache-with_handle _ o

module _ (util : HttpUtil) (info : InfoUtil) (get_http_error : Response → Exception)
    (head_server : HeadServer) (server : Server) (file_server : FileServer) where
  abbrev kept : Opening → Opening
  kept o = on_cache (Cache.insert o.session.handle.path (get_cache_entry o.session.handle)) o

  abbrev buffered : Opening → Opening
  buffered o = with_buffer (skip_buffer o.session.handle) (kept o)

  finish_reading-ReadsRanges :
      (o : Opening)
      → ReadsRanges o.session.handle
      → finish_reading util info get_http_error head_server server file_server true o
        ≡ (ok tt, buffered o)
  unfolding finish_reading
  finish_reading-ReadsRanges o r = rw (finish_reading, r.not_empty, r.not_small, r.not_forced) refl

  rest-buffered : (o : Opening) → rest (buffered o) ≡ rest o
  rest-buffered o =
      rest-with_buffer (skip_buffer o.session.handle) (kept o)
      ∙ rest-on_cache _ o.choice o.session o.of_query

  cache-buffered :
      (o : Opening) (c : MetadataCache)
      → current_cache o ≡ some c
      → current_cache (buffered o)
        ≡ some (Cache.insert o.session.handle.path (get_cache_entry o.session.handle) c)
  cache-buffered o c chosen =
      cache-with_buffer (skip_buffer o.session.handle) (kept o)
      ∙ current_cache-on_cache _ c o.choice o.session o.of_query chosen

  finish_opening-ReadsRanges :
      (o : Opening)
      → ReadsRanges o.session.handle
      → finish_opening util info get_http_error head_server server file_server true o
        ≡ (ok tt, buffered o)
  unfolding finish_opening
  finish_opening-ReadsRanges o r =
      simp
        (
          finish_opening,
          r.reads,
          finish_reading-ReadsRanges o r,
          ap (λ x. x.0.flags.open_for_writing) (rest-buffered o),
          r.not_written,
        )
        refl

  -- A call of LoadFileInfo that an opening makes, and what it found.
  pub record Loads (o : Opening) (s : Session) (c : MetadataCache) : Type 0 where
    pub reads : o.session.handle.flags.open_for_reading ≡ true
    pub not_downloaded : o.session.handle.http_params.force_download ≡ false
    pub not_known : known_entry o ≡ none
    pub has_cache : is_some (current_cache o) ≡ true
    pub loaded : load_file_info util info get_http_error head_server server o.session ≡ (ok tt, s)
    pub in_ranges : ReadsRanges s.handle
    pub keeps_cache : current_cache (record o { session = s }) ≡ some c

  initialize-Loads :
      (o : Opening) (s : Session) (c : MetadataCache)
      → Loads o s c
      → initialize util info get_http_error head_server server file_server o
        ≡ (ok tt, buffered (record o { session = s }))
  unfolding initialize
  initialize-Loads o s c l =
      simp
        (
          initialize,
          l.loaded,
          l.reads,
          l.not_downloaded,
          l.not_known,
          l.has_cache,
          finish_opening-ReadsRanges (record o { session = s }) l.in_ranges,
        )
        refl

  -- What an opening from an entry takes from it, without a request.
  open_known-takes :
      (e : CacheEntry) (o : Opening)
      → let t = (open_known util info get_http_error head_server server file_server e o).session in
        (metadata t.handle ≡ (e.length, e.last_modified, e.etag, e.version_id))
        × (t.requests ≡ o.session.requests)
  unfolding open_known initialize_from_cache_entry find_cached_file allocate_read_buffer
      get_cached_file
  open_known-takes e o = ground arith

  initialize-known :
      (e : CacheEntry) (o : Opening)
      → o.session.handle.flags.open_for_reading ≡ true
      → o.session.handle.http_params.force_download ≡ false
      → known_entry o ≡ some e
      → initialize util info get_http_error head_server server file_server o
        ≡ (ok tt, open_known util info get_http_error head_server server file_server e o)
  unfolding initialize
  initialize-known e o reads not_forced known = simp (initialize, reads, not_forced, known) refl

  known_entry-buffered :
      (o : Opening) (c : MetadataCache) (h : FileHandle)
      → current_cache o ≡ some c
      → h.path ≡ o.session.handle.path
      → known_entry (with_handle h (buffered o)) ≡ some (get_cache_entry o.session.handle)
  unfolding find Cache.insert
  known_entry-buffered o c h chosen same_path =
      let path = o.session.handle.path in
      let c' = Cache.insert path (get_cache_entry o.session.handle) c in
      let e : current_cache (with_handle h (buffered o)) ≡ some c' =
        cache-with_handle h (buffered o) ∙ cache-buffered o c chosen in
      ap (λ x. elim x [ none ↦ none | some d ↦ find h.path d ]) e
      ∙ ap (λ p. find p c') same_path
      ∙ lookup-insert path path _ c.map
      ∙ simp (text_eq_refl path) refl

  -- A file that is opened for reading only, is not known to the chosen metadata cache, is neither
  -- empty nor downloaded whole, and whose LoadFileInfo ends well, opens well. When another handle of the
  -- same path is then opened for reading, without force_download and with what the first one left, this
  -- ends well too, sends no request, and gives the handle the length, the modification time, the ETag
  -- and the version id that the first one loaded.
  pub reopen :
      (o : Opening) (s : Session) (c : MetadataCache) (h : FileHandle)
      → Loads o s c
      → h.path ≡ s.handle.path
      → h.flags.open_for_reading ≡ true
      → h.http_params.force_download ≡ false
      → let run = initialize util info get_http_error head_server server file_server in
        let again = run (with_handle h (run o).1) in
        ((run o).0 ≡ ok tt)
        × (again.0 ≡ ok tt)
        × (metadata again.1.session.handle ≡ metadata s.handle)
        × (again.1.session.requests ≡ s.requests)
  unfolding get_cache_entry
  reopen o s c h l same_path reads not_forced =
      let left = buffered (record o { session = s }) in
      let e = get_cache_entry s.handle in
      let known = known_entry-buffered (record o { session = s }) c h l.keeps_cache same_path in
      let (takes, no_request) = open_known-takes e (with_handle h left) in
      rw (initialize-Loads o s c l, initialize-known e (with_handle h left) reads not_forced known)
        (refl, refl, takes, no_request ∙ ap (λ x. x.1) (rest-buffered (record o { session = s })))
