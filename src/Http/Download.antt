-- ===== src/Http/Download.antt =====
-- HTTPFileSystem::RunGetRequest and GetRequest, HTTPFileHandle::FullDownload (httpfs.cpp) and the
-- cached files of HTTPState (http_state.cpp), for one thread at a time.
mod Refused
mod Tests
use haybarn_httpfs.Base.{
  ℕ, ◌+◌, true, Option, none, some, List, [], ◌∷◌, leb, ◌==◌, if◌then◌else◌, Text, lookup,
}
use haybarn_httpfs.Base
use haybarn_httpfs.Http.Types.{
  internal, unknown_error, full_download_failed, Exception, Response, Result, ok, throw, plain,
}
use haybarn_httpfs.Http.CachedFile.{CachedFile, empty_file, set_initialized, receive}
use haybarn_httpfs.Http.Handle.{Session, HttpUtil}
use haybarn_httpfs.Http.Preconditions.{
  add_handle_headers, add_user_agent_if_available, add_consistency_preconditions,
  make_consistency_aware_error,
}
use haybarn_httpfs.Http.Range.{
  Event, responded, data_arrived, Exchange, settle, pin_version, has_failed, return_client,
  take_client,
}

-- HTTPState::GetCachedFile: the file of a path, a new one if there is none.
unfoldable pub get_cached_file : Text → Session → CachedFile × Session
get_cached_file path s = elim (lookup path s.cached_files) [
  | some file ↦ (file, s)
  | none ↦ (empty_file, record s { cached_files = Base.insert path empty_file s.cached_files })
]

-- HTTPState::EraseCachedFile.
unfoldable pub erase_cached_file : Text → Session → Session
erase_cached_file path s = record s { cached_files = Base.erase path s.cached_files }

-- The file that the handle and HTTPState share, after it was changed through the handle.
unfoldable pub update_cached_file : CachedFile → Session → Session
update_cached_file file s = record s {
  handle = record s.handle { cached_file_handle = some file };
  cached_files = Base.insert s.handle.path file s.cached_files;
}

-- The callbacks of RunGetRequest.
unfoldable pub on_get_event : Event → Session → Result (Unit {0}) × Session
unfolding receive pin_version update_cached_file
on_get_event (responded r) s = if leb 400 r.status then (ok tt, s) else (ok tt, pin_version r s)
on_get_event (data_arrived chunk) s = elim s.handle.cached_file_handle [
  | none ↦ (ok tt, s)
  | some file ↦ elim (receive chunk (record { file = file; length = s.handle.length })) [
    | throw e ↦ (throw e, s)
    | ok d ↦ (
      ok tt,
      update_cached_file d.file (record s { handle = record s.handle { length = d.length } }),
    )
  ]
]

unfoldable pub deliver_get : List Event → Session → Result (Unit {0}) × Session
unfolding on_get_event
deliver_get [] s = (ok tt, s)
deliver_get (event ∷ events) s =
    let (went, s') = on_get_event event s in
    elim went [ throw e ↦ (throw e, s') | ok _ ↦ deliver_get events s' ]

unfoldable pub run_get_request :
    (Response → Session → Exception × Session)
    → Exchange
    → Session
    → Result (Option Response) × Session
unfolding deliver_get settle
run_get_request get_error exchange s =
    let (went, s') = deliver_get exchange.events s in
    elim (settle exchange went) [
      | throw e ↦ (throw e, s')
      | ok none ↦ (ok none, s')
      | ok (some r) ↦
          if has_failed r
          then (let (e, s'') = get_error r s' in (throw e, s''))
          else (ok (some r), s')
    ]

-- A request for a whole file, by the number of the request, the client and the headers.
abbrev pub FileServer : Type 0
FileServer = ℕ → ℕ → List (Text × Text) → Exchange

module _ (util : HttpUtil) (get_http_error : Response → Exception) (server : FileServer) where
  -- HTTPFileSystem::GetRequest.
  unfoldable pub get_request : Session → Result (Option Response) × Session
  unfolding run_get_request take_client return_client add_user_agent_if_available add_handle_headers
      add_consistency_preconditions make_consistency_aware_error
  get_request s =
      let h = s.handle in
      let (headers, params) =
        add_handle_headers h.http_params (add_user_agent_if_available util h.http_params []) in
      let (headers', sent_precondition) =
        add_consistency_preconditions util (record h { http_params = params }) headers in
      let (client, s') =
        take_client util (record s { handle = record h { http_params = params } }) in
      let exchange = server s.requests client headers' in
      let (result, s'') =
        run_get_request (make_consistency_aware_error util get_http_error sent_precondition h.path)
          exchange (record s' { requests = s.requests + 1 }) in
      elim result [
        | throw e ↦ (throw e, s'')
        | ok response ↦ (ok response, return_client exchange.client s'')
      ]

  -- The file that the handle downloads, once the lock is held.
  unfoldable pub finish_download : Session → Result (Unit {0}) × Session
  unfolding set_initialized update_cached_file
  finish_download s = elim s.handle.cached_file_handle [
    | none ↦ (ok tt, s)
    | some file ↦ elim (set_initialized s.handle.length true file) [
      | throw e ↦ (throw e, s)
      | ok file' ↦ (ok tt, update_cached_file file' s)
    ]
  ]

  -- HTTPFileHandle::FullDownload. A null response is a fault of the program: it reads its status.
  unfoldable pub full_download : Session → Result (Unit {0}) × Session
  unfolding get_request finish_download get_cached_file
  full_download s =
      let (file, s') = get_cached_file s.handle.path s in
      let h = record s'.handle { cached_file_handle = some file } in
      if file.initialized
      then (ok tt, record s' { handle = record h { length = file.size } })
      else (let (result, s'') = get_request (record s' { handle = h }) in
          elim result [
            | throw e ↦ (throw e, s'')
            | ok none ↦ (throw (plain internal unknown_error), s'')
            | ok (some r) ↦
                if r.status == 200
                then finish_download s''
                else (throw (util.http_exception full_download_failed r), s'')
          ])
