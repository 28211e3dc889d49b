-- ===== src/Http/Range/Refused.antt =====
-- A range request and a full request that the server answers with an error.
use mathlib.Core.Option
use mathlib.Core.Path.{subst}
use haybarn_httpfs.Base.{
  ℕ, ◌+◌, ◌≡◌, refl, sym, ap, ◌∙◌, Bool, true, false, ◌&&◌, ◌||◌, not, Option, none, some, List, [],
  ◌∷◌, arith, ltb, leb, ◌==◌, if◌then◌else◌, Text, text_eq, lookup-erase,
}
use haybarn_httpfs.Http.Types.{remote_changed, Exception, Response, Result, ok, throw}
use haybarn_httpfs.Http.Handle.{FileHandle, Session, HttpUtil}
use haybarn_httpfs.Http.MetadataCache.{CacheEntry, MetadataCache}
use haybarn_httpfs.Http.MetadataCache as Cache
use haybarn_httpfs.Http.Preconditions.{
  is_strong_etag, add_handle_headers, erase_metadata, add_consistency_preconditions,
  make_consistency_aware_error,
}
use haybarn_httpfs.Http.Range.{
  responded, Exchange, Server, Transfer, settle, judge, return_client, on_response, on_event,
  deliver, run_get_range_request, take_client, prepare_range_request, get_range_request,
}

-- What the global metadata cache answers for a path.
abbrev pub known_of : Text → Option MetadataCache → Option CacheEntry
known_of q none = none
known_of q (some c) = Cache.find q c

-- The handle has a validator to send.
abbrev pub has_validator : FileHandle → Bool
has_validator h =
    not h.http_params.unsafe_disable_etag_checks && (is_strong_etag h.etag || ltb 0 h.last_modified)

known_of-erase :
    (path q : Text) (m : Option MetadataCache)
    → known_of q (Option.map (Cache.erase path) m) ≡ (if text_eq path q then none else known_of q m)
known_of-erase path q none = ground arith
known_of-erase path q (some c) =
    unfold Cache.find in unfold Cache.erase in lookup-erase path q c.map

-- The answer to a request is one response, an error of the server.
pub record IsError (exchange : Exchange) (r : Response) : Type 0 where
  pub events : exchange.events ≡ responded r ∷ []
  pub response : exchange.response ≡ some r
  pub error_status : leb 400 r.status ≡ true
  pub no_request_error : r.request_error ≡ none

-- What is thrown, and what the global metadata cache knows afterwards.
pub record IsVerdict (util : HttpUtil) (get_http_error : Response → Exception) (r : Response)
    (s after : Session) (thrown : Exception) : Type 0 where
  pub error : thrown ≡ (
      if has_validator s.handle && r.status == 412
      then util.http_exception remote_changed r
      else get_http_error r)
  pub knows :
      (q : Text)
      → known_of q after.global_metadata_cache ≡ (
          if (has_validator s.handle && r.status == 412) && text_eq s.handle.path q
          then none
          else known_of q s.global_metadata_cache)

module _ (util : HttpUtil) (get_http_error : Response → Exception) where
  pub sent :
      (h : FileHandle) (headers : List (Text × Text))
      → (add_consistency_preconditions util h headers).1 ≡ has_validator h
  unfolding add_consistency_preconditions
  sent h headers = ground arith

  outcome :
      (changed : Bool) (path : Text) (r : Response) (t : Session) (q : Text)
      → let out =
          (if◌then◌else◌ {A = Exception × Session} changed
            (util.http_exception remote_changed r, erase_metadata path t)
            (get_http_error r, t)) in
        (out.0 ≡ (if changed then util.http_exception remote_changed r else get_http_error r))
        × (known_of q out.1.global_metadata_cache
            ≡ (if changed && text_eq path q then none else known_of q t.global_metadata_cache))
  unfolding erase_metadata
  outcome false path r t q = (refl, refl)
  outcome true path r t q = (refl, known_of-erase path q t.global_metadata_cache)

  -- The verdict of the callback, in a session that knows what `s` knows.
  pub verdict :
      (r : Response) (s t : Session) (sent_precondition : Bool)
      → sent_precondition ≡ has_validator s.handle
      → t.global_metadata_cache ≡ s.global_metadata_cache
      → let out =
          make_consistency_aware_error util get_http_error sent_precondition s.handle.path r t in
        IsVerdict util get_http_error r s out.1 out.0
  unfolding make_consistency_aware_error
  verdict r s t sent_precondition e same =
      let changed = has_validator s.handle && r.status == 412 in
      record {
        error = rw e (outcome changed s.handle.path r t []).0;
        knows = λ q.
            rw e (outcome changed s.handle.path r t q).1
            ∙ ap (λ m. if changed && text_eq s.handle.path q then none else known_of q m) same;
      }

  deliver-error :
      (etag : Text) (n : ℕ) (r : Response) (t : Transfer)
      → leb 400 r.status ≡ true
      → deliver util etag n (responded r ∷ []) t ≡ (ok tt, t)
  unfolding deliver on_event on_response
  deliver-error etag n r t e = ground (arith, e)

  judge-error :
      (get_error : Response → Session → Exception × Session) (n : ℕ) (r : Response) (t : Transfer)
      → leb 400 r.status ≡ true
      → r.request_error ≡ none
      → judge get_error n (some r) t
        ≡ (throw (get_error r t.session).0, record t { session = (get_error r t.session).1 })
  unfolding judge
  judge-error get_error n r t e f = ground (arith, e, f)

  run_get_range_request-error :
      (get_error : Response → Session → Exception × Session) (etag : Text) (n : ℕ)
      (exchange : Exchange) (out : Option (List ℕ)) (s : Session) (r : Response)
      → IsError exchange r
      → run_get_range_request util get_error etag n exchange out s ≡ (
        throw (get_error r s).0,
        record { out = out; out_offset = 0; session = (get_error r s).1 },
      )
  unfolding run_get_range_request settle
  run_get_range_request-error get_error etag n exchange out s r v =
      let start : Transfer = record { out = out; out_offset = 0; session = s } in
      let delivered : deliver util etag n exchange.events start ≡ (ok tt, start) =
        ap (λ events. deliver util etag n events start) v.events
        ∙ deliver-error etag n r start v.error_status in
      let go : Result (Unit {0}) × Transfer → Result (Option Response) × Transfer = λ d.
        elim (settle exchange d.0) [
          | throw e ↦ (throw e, d.1)
          | ok response ↦ judge get_error n response d.1
        ] in
      ap go delivered
      ∙ ap (λ response. judge get_error n response start) v.response
      ∙ judge-error get_error n r start v.error_status v.no_request_error

  pub take_client-knows :
      (s : Session) → (take_client util s).1.global_metadata_cache ≡ s.global_metadata_cache
  unfolding take_client
  take_client-knows s = ground arith

  -- What the server answers to the range request that is sent.
  abbrev pub range_exchange : Server → ℕ → ℕ → Session → Exchange
  range_exchange server file_offset n s =
      let (request, sent_precondition, h) = prepare_range_request util file_offset n s.handle in
      let (client, s') = take_client util (record s { handle = h }) in
      server s.requests client request

  -- A range request that the server answers with one response, an error, throws: `remote_changed` when
  -- the status is 412 and the handle sent a validator, which it does when etag checks are not disabled
  -- and it has a strong etag or a modification time, and the error of the request otherwise. In the first
  -- case the global metadata cache, where there is one, knows no entry of the path any more and answers
  -- as before for every other path, and otherwise it answers as before.
  pub get_range_request-refused :
      (server : Server) (file_offset n : ℕ) (out : Option (List ℕ)) (s : Session) (r : Response)
      → IsError (range_exchange server file_offset n s) r
      → let ran = get_range_request util get_http_error server file_offset out n s in
        (thrown : Exception) × (ran.0 ≡ throw thrown)
        × IsVerdict util get_http_error r s ran.1.session thrown
  unfolding get_range_request prepare_range_request add_handle_headers
  get_range_request-refused server file_offset n out s r v =
      let (request, sent_precondition, h) = prepare_range_request util file_offset n s.handle in
      let s' = (take_client util (record s { handle = h })).1 in
      let t : Session = record s' { requests = s.requests + 1 } in
      let exchange = range_exchange server file_offset n s in
      let get_error = make_consistency_aware_error util get_http_error sent_precondition h.path in
      let go : Result (Option Response) × Transfer → Result (Option Response) × Transfer = λ ran.
        elim ran.0 [
          | throw e ↦ (throw e, ran.1)
          | ok response ↦
              (ok response, record ran.1 { session = return_client exchange.client ran.1.session })
        ] in
      let went : get_range_request util get_http_error server file_offset out n s ≡ (
        throw (get_error r t).0,
        record { out = out; out_offset = 0; session = (get_error r t).1 },
      ) =
        ap go (run_get_range_request-error get_error h.etag n exchange out t r v) in
      (
        (get_error r t).0,
        ap (λ ran. ran.0) went,
        subst (λ ran. IsVerdict util get_http_error r s ran.1.session (get_error r t).0) (sym went)
            (verdict r s t sent_precondition (sent h _)
              (take_client-knows (record s { handle = h }))),
      )
