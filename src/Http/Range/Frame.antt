-- ===== src/Http/Range/Frame.antt =====
-- What a range request leaves alone: the part of the handle that reading goes by.
use haybarn_httpfs.Base.{
  ℕ, ◌+◌, ◌≡◌, refl, ◌∙◌, inl, inr, Bool, Option, none, some, List, [], ◌∷◌, arith, Text,
}
use haybarn_httpfs.Http.Types.{Exception, Response, Result, Result-cases}
use haybarn_httpfs.Http.CachedFile.{CachedFile}
use haybarn_httpfs.Http.Handle.{Flags, Session, HttpUtil}
use haybarn_httpfs.Http.Preconditions.{erase_metadata, make_consistency_aware_error}
use haybarn_httpfs.Http.Range.{
  Event, responded, data_arrived, Exchange, RangeRequest, Server, Transfer, settle, pin_version,
  on_data, judge, return_client, check_etag, on_response, on_event, deliver, run_get_range_request,
  take_client, prepare_range_request, get_range_request,
}
use haybarn_httpfs.Http.ClientCache.{get_client_with_generation, get_client}

pub record View : Type 0 where
  pub flags : Flags
  pub length : ℕ
  pub cached_file_handle : Option CachedFile
  pub buffer_available : ℕ
  pub buffer_idx : ℕ
  pub buffer_start : ℕ
  pub buffer_end : ℕ
  pub read_buffer : List ℕ
  pub file_offset : ℕ

abbrev pub view : Session → View
view s = record {
  flags = s.handle.flags;
  length = s.handle.length;
  cached_file_handle = s.handle.cached_file_handle;
  buffer_available = s.handle.buffer_available;
  buffer_idx = s.handle.buffer_idx;
  buffer_start = s.handle.buffer_start;
  buffer_end = s.handle.buffer_end;
  read_buffer = s.handle.read_buffer;
  file_offset = s.handle.file_offset;
}

view-pin_version : (r : Response) (s : Session) → view (pin_version r s) ≡ view s
unfolding pin_version
view-pin_version r s = ground arith

module _ (util : HttpUtil) where
  view-check_etag :
      (etag : Text) (r : Response) (s : Session) → view (check_etag util etag r s).1 ≡ view s
  unfolding check_etag erase_metadata
  view-check_etag etag r s = ground arith

  view-on_event :
      (etag : Text) (n : ℕ) (event : Event) (t : Transfer)
      → view (on_event util etag n event t).1.session ≡ view t.session
  unfolding on_event on_response on_data
  view-on_event etag n (responded r) t = ground (
    arith,
    view-check_etag etag r t.session,
    view-pin_version r (check_etag util etag r t.session).1,
  )
  view-on_event etag n (data_arrived chunk) t = ground arith

  view-deliver :
      (etag : Text) (n : ℕ) (events : List Event) (t : Transfer)
      → view (deliver util etag n events t).1.session ≡ view t.session
  unfolding deliver
  view-deliver etag n [] t = refl
  view-deliver etag n (event ∷ events) t = ground (
    arith,
    view-on_event etag n event t,
    view-deliver etag n events (on_event util etag n event t).1,
  )

view-judge :
    (get_error : Response → Session → Exception × Session) (n : ℕ) (response : Option Response)
    (t : Transfer)
    → ((r : Response) (s : Session) → view (get_error r s).1 ≡ view s)
    → view (judge get_error n response t).1.session ≡ view t.session
unfolding judge
view-judge get_error n none t keeps = refl
view-judge get_error n (some r) t keeps = ground (arith, keeps r t.session)

module _ (util : HttpUtil) where
  view-run_get_range_request :
      (get_error : Response → Session → Exception × Session) (etag : Text) (n : ℕ)
      (exchange : Exchange) (out : Option (List ℕ)) (s : Session)
      → ((r : Response) (u : Session) → view (get_error r u).1 ≡ view u)
      → view (run_get_range_request util get_error etag n exchange out s).1.session ≡ view s
  unfolding run_get_range_request
  view-run_get_range_request get_error etag n exchange out s keeps =
      let t =
        deliver util etag n exchange.events (record { out = out; out_offset = 0; session = s }) in
      elim (Result-cases (settle exchange t.0)) [
        | inl (response, e) ↦
            rw (e, run_get_range_request)
              (view-judge get_error n response t.1 keeps
                ∙ view-deliver util etag n exchange.events _)
        | inr (x, e) ↦ rw (e, run_get_range_request) (view-deliver util etag n exchange.events _)
      ]

  view-make_consistency_aware_error :
      (base_error : Response → Exception) (sent : Bool) (path : Text) (r : Response) (s : Session)
      → view (make_consistency_aware_error util base_error sent path r s).1 ≡ view s
  unfolding make_consistency_aware_error
  view-make_consistency_aware_error base_error sent path r s = ground arith

  view-prepare :
      (offset n k : ℕ) (s : Session)
      → view
          (record (take_client util
            (record s { handle = (prepare_range_request util offset n s.handle).2 })).1 {
              requests = k;
            })
        ≡ view s
  unfolding take_client prepare_range_request get_client get_client_with_generation
  view-prepare offset n k s = ground arith

  module _ (get_http_error : Response → Exception) (server : Server) (offset n : ℕ)
      (out : Option (List ℕ)) (s : Session) where
    abbrev pub request : RangeRequest
    request = (prepare_range_request util offset n s.handle).0

    abbrev pub client_session : ℕ × Session
    client_session =
        take_client util (record s { handle = (prepare_range_request util offset n s.handle).2 })

    abbrev pub exchange : Exchange
    exchange = server s.requests client_session.0 request

    -- The call of RunGetRangeRequest within GetRangeRequest.
    abbrev pub ran : Result (Option Response) × Transfer
    ran =
        run_get_range_request util
          (make_consistency_aware_error util get_http_error
            (prepare_range_request util offset n s.handle).1
            (prepare_range_request util offset n s.handle).2.path)
          (prepare_range_request util offset n s.handle).2.etag n exchange out
          (record client_session.1 { requests = s.requests + 1 })

    pub get_range_request-ran :
        ((get_range_request util get_http_error server offset out n s).0 ≡ ran.0)
        × ((get_range_request util get_http_error server offset out n s).1.out ≡ ran.1.out)
        × (view (get_range_request util get_http_error server offset out n s).1.session
            ≡ view ran.1.session)
    unfolding get_range_request return_client
    get_range_request-ran = elim (Result-cases ran.0) [
      | inl (response, e) ↦ rw (e, get_range_request) (refl, refl, refl)
      | inr (x, e) ↦ rw (e, get_range_request) (refl, refl, refl)
    ]

    pub view-get_range_request :
        view (get_range_request util get_http_error server offset out n s).1.session ≡ view s
    view-get_range_request =
        get_range_request-ran.2
        ∙ view-run_get_range_request _ _ n exchange out _
            (view-make_consistency_aware_error get_http_error _ _)
        ∙ view-prepare offset n (s.requests + 1) s

    pub request-first : request.first ≡ offset
    unfolding prepare_range_request
    request-first = refl
