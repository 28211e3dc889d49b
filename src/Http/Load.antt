-- ===== src/Http/Load.antt =====
-- HTTPFileSystem::HeadRequest and HTTPFileHandle::LoadFileInfo (httpfs.cpp).
use haybarn_httpfs.Base.{
  ℕ, ◌+◌, true, ◌&&◌, ◌||◌, not, Option, none, some, List, [], ◌==◌, if◌then◌else◌, Text, codes,
  lookup,
}
use haybarn_httpfs.Http.Types.{
  io, internal, remote_changed, unknown_error, file_does_not_exist, Exception, Response, Result, ok,
  throw, plain,
}
use haybarn_httpfs.Http.CachedFile.{CachedFile}
use haybarn_httpfs.Http.Handle.{FileHandle, Session, HttpUtil}
use haybarn_httpfs.Http.Preconditions.{
  add_handle_headers, erase_metadata, add_user_agent_if_available, add_consistency_preconditions,
}
use haybarn_httpfs.Http.FileInfo.{try_parse_content_range, try_parse_content_length}
use haybarn_httpfs.Http.Range.{Server, return_client, take_client, get_range_request}
use haybarn_httpfs.Http.Download.{get_cached_file}
use haybarn_httpfs.Http.Read.{responded_with_range_request_not_supported}

-- The answer to a HEAD request, by its number, the client and the headers, and the client it leaves.
-- HTTPUtil hands the answer back and calls nothing.
pub record HeadAnswer : Type 0 where
  pub answer : Result (Option Response)
  pub client : ℕ

abbrev pub HeadServer : Type 0
HeadServer = ℕ → ℕ → List (Text × Text) → HeadAnswer

-- DuckDB's optional_idx, and TryParseLastModifiedTime, which is StrpTimeFormat of DuckDB.
pub record InfoUtil : Type 0 where
  pub optional_idx : ℕ → Option ℕ
  pub parse_time : Text → Option ℕ

-- The full download of the path, where HTTPState has it complete.
unfoldable pub find_cached_file : Session → Option CachedFile × Session
unfolding get_cached_file
find_cached_file s =
    let (file, s') = get_cached_file s.handle.path s in
    (if file.initialized then some file else none, s')

module _ (util : HttpUtil) (head_server : HeadServer) where
  -- HTTPFileSystem::HeadRequest. The client is given back before the verdict on a 412.
  unfoldable pub head_request : Session → Result (Option Response) × Session
  unfolding take_client return_client add_user_agent_if_available add_handle_headers
      add_consistency_preconditions erase_metadata
  head_request s =
      let (headers, params) =
        add_handle_headers s.handle.http_params
          (add_user_agent_if_available util s.handle.http_params []) in
      let h : FileHandle = record s.handle { http_params = params } in
      let (headers', sent_precondition) = add_consistency_preconditions util h headers in
      let (client, s') = take_client util (record s { handle = h }) in
      let head = head_server s.requests client headers' in
      elim head.answer [
        | throw e ↦ (throw e, record s' { requests = s.requests + 1 })
        | ok none ↦ (ok none, return_client head.client (record s' { requests = s.requests + 1 }))
        | ok (some r) ↦
            let s'' = return_client head.client (record s' { requests = s.requests + 1 }) in
            if sent_precondition && r.status == 412
            then (throw (util.http_exception remote_changed r), erase_metadata h.path s'')
            else (ok (some r), s'')
      ]

-- What LoadFileInfo takes from the headers of a response.
module _ (info : InfoUtil) where
  abbrev pub size_of : Response → ℕ
  size_of r = elim (try_parse_content_range info.optional_idx r.headers) [
    | some n ↦ n
    | none ↦ elim (try_parse_content_length info.optional_idx r.headers) [ some n ↦ n | none ↦ 0 ]
  ]

  abbrev pub modified_of : Response → ℕ → ℕ
  modified_of r old = elim (lookup (codes "Last-Modified") r.headers) [
    | none ↦ old
    | some text ↦ elim (info.parse_time text) [ none ↦ old | some t ↦ t ]
  ]

  abbrev pub header_or : Text → Response → Text → Text
  header_or name r old = elim (lookup name r.headers) [ none ↦ old | some v ↦ v ]

  unfoldable pub take_file_info : Response → FileHandle → FileHandle
  unfolding try_parse_content_range try_parse_content_length
  take_file_info r h = record h {
    length = size_of r;
    last_modified = modified_of r h.last_modified;
    etag = header_or (codes "ETag") r h.etag;
    version_id =
        if h.http_params.s3_version_id_pinning
        then header_or (codes "x-amz-version-id") r h.version_id
        else h.version_id;
    initialized = true;
  }

module _ (util : HttpUtil) (info : InfoUtil) (get_http_error : Response → Exception)
    (head_server : HeadServer) (server : Server) where
  -- The answer to the range request that is tried when HEAD failed. A null answer is a fault of the
  -- program, which reads its status.
  unfoldable pub judge_probe : Result (Option Response) → Session → Result (Unit {0}) × Session
  unfolding responded_with_range_request_not_supported take_file_info
  judge_probe (throw e) s = (throw e, s)
  judge_probe (ok none) s = (throw (plain internal unknown_error), s)
  judge_probe (ok (some r)) s =
      let h = s.handle in
      if r.status == 206 || (r.status == 202 || r.status == 200)
      then (ok tt, record s { handle = take_file_info info r h })
      else if responded_with_range_request_not_supported r
          && h.http_params.auto_fallback_to_full_download
      then (
        ok tt,
        record s { handle = take_file_info info r (record h { force_full_download = true }) },
      )
      else (throw (get_http_error r), s)

  unfoldable pub probe_range : Session → Result (Unit {0}) × Session
  unfolding get_range_request judge_probe
  probe_range s =
      let (result, t) = get_range_request util get_http_error server 0 none 2 s in
      judge_probe result t.session

  unfoldable pub judge_head : Response → Session → Result (Unit {0}) × Session
  unfolding probe_range take_file_info
  judge_head r s =
      let h = s.handle in
      if r.status == 200
      then (ok tt, record s { handle = take_file_info info r h })
      else if h.flags.open_for_writing && r.status == 404
      then (if not h.flags.create_file_if_not_exists && not h.flags.overwrite_existing_file
          then (throw (plain io file_does_not_exist), s)
          else (ok tt, record s { handle = record h { length = 0 } }))
      else if h.flags.open_for_reading && (not (r.status == 404) && not (r.status == 301))
      then probe_range s
      else (throw (get_http_error r), s)

  unfoldable pub request_file_info : Session → Result (Unit {0}) × Session
  unfolding head_request judge_head
  request_file_info s =
      let (answered, s') = head_request util head_server s in
      elim answered [
        | throw e ↦ (throw e, s')
        | ok none ↦ (throw (plain internal unknown_error), s')
        | ok (some r) ↦ judge_head r s'
      ]

  -- HTTPFileHandle::LoadFileInfo. Initialize has made sure that there is an HTTPState.
  unfoldable pub load_file_info : Session → Result (Unit {0}) × Session
  unfolding find_cached_file request_file_info
  load_file_info s =
      let (cached, s') = find_cached_file s in
      let h = s'.handle in
      elim cached [
        | some file ↦ (
          ok tt,
          record s' {
            handle = record h {
              length = file.size;
              cached_file_handle = some file;
              initialized = true;
            };
          },
        )
        | none ↦
            if h.initialized || h.force_full_download
            then (ok tt, s')
            else if h.write_overwrite_mode
            then (ok tt, record s' { handle = record h { length = 0; initialized = true } })
            else request_file_info s'
      ]
