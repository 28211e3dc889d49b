-- ===== src/Http/Download/Refused.antt =====
-- A request for a whole file that the server answers with an error.
use mathlib.Core.Path.{subst}
use haybarn_httpfs.Base.{
  ◌+◌, ◌≡◌, refl, sym, ap, ◌∙◌, true, Option, none, some, [], ◌∷◌, arith, leb, if◌then◌else◌,
}
use haybarn_httpfs.Http.Types.{Exception, Response, Result, ok, throw}
use haybarn_httpfs.Http.Handle.{FileHandle, Session, HttpUtil}
use haybarn_httpfs.Http.Preconditions.{
  add_handle_headers, add_user_agent_if_available, add_consistency_preconditions,
  make_consistency_aware_error,
}
use haybarn_httpfs.Http.Range.{responded, Exchange, settle, has_failed, return_client, take_client}
use haybarn_httpfs.Http.Range.Refused.{IsError, IsVerdict, sent, verdict, take_client-knows}
use haybarn_httpfs.Http.Download.{
  on_get_event, deliver_get, run_get_request, FileServer, get_request,
}

deliver_get-error :
    (r : Response) (s : Session)
    → leb 400 r.status ≡ true
    → deliver_get (responded r ∷ []) s ≡ (ok tt, s)
unfolding deliver_get on_get_event
deliver_get-error r s e = ground (arith, e)

module _ (util : HttpUtil) (get_http_error : Response → Exception) where
  run_get_request-error :
      (get_error : Response → Session → Exception × Session) (exchange : Exchange) (s : Session)
      (r : Response)
      → IsError exchange r
      → run_get_request get_error exchange s ≡ (throw (get_error r s).0, (get_error r s).1)
  unfolding run_get_request settle
  run_get_request-error get_error exchange s r v =
      let delivered : deliver_get exchange.events s ≡ (ok tt, s) =
        ap (λ events. deliver_get events s) v.events ∙ deliver_get-error r s v.error_status in
      let judge_get : Option Response → Result (Option Response) × Session = λ response.
        elim response [
          | none ↦ (ok none, s)
          | some x ↦
              if has_failed x
              then (let (e, s'') = get_error x s in (throw e, s''))
              else (ok (some x), s)
        ] in
      let failed : has_failed r ≡ true = rw v.no_request_error v.error_status in
      let go : Result (Unit {0}) × Session → Result (Option Response) × Session = λ d.
        elim (settle exchange d.0) [
          | throw e ↦ (throw e, d.1)
          | ok none ↦ (ok none, d.1)
          | ok (some x) ↦
              if has_failed x
              then (let (e, s'') = get_error x d.1 in (throw e, s''))
              else (ok (some x), d.1)
        ] in
      ap go delivered ∙ ap judge_get v.response ∙ rw failed refl

  -- What the server answers to the request that is sent.
  abbrev pub full_exchange : FileServer → Session → Exchange
  full_exchange server s =
      let h = s.handle in
      let (headers, params) =
        add_handle_headers h.http_params (add_user_agent_if_available util h.http_params []) in
      let h' : FileHandle = record h { http_params = params } in
      let (headers', sent_precondition) = add_consistency_preconditions util h' headers in
      server s.requests (take_client util (record s { handle = h' })).0 headers'

  -- A request for a whole file that the server answers with one response, an error, throws:
  -- `remote_changed` when the status is 412 and the handle sent a validator, which it does when etag
  -- checks are not disabled and it has a strong etag or a modification time, and the error of the
  -- request otherwise. In the first case the global metadata cache, where there is one, knows no entry
  -- of the path any more and answers as before for every other path, and otherwise it answers as before.
  pub get_request-refused :
      (server : FileServer) (s : Session) (r : Response)
      → IsError (full_exchange server s) r
      → let ran = get_request util get_http_error server s in
        (thrown : Exception) × (ran.0 ≡ throw thrown)
        × IsVerdict util get_http_error r s ran.1 thrown
  unfolding get_request add_handle_headers
  get_request-refused server s r v =
      let h = s.handle in
      let (headers, params) =
        add_handle_headers h.http_params (add_user_agent_if_available util h.http_params []) in
      let h' : FileHandle = record h { http_params = params } in
      let sent_precondition = (add_consistency_preconditions util h' headers).1 in
      let s' = (take_client util (record s { handle = h' })).1 in
      let t : Session = record s' { requests = s.requests + 1 } in
      let exchange = full_exchange server s in
      let get_error = make_consistency_aware_error util get_http_error sent_precondition h.path in
      let go : Result (Option Response) × Session → Result (Option Response) × Session = λ ran.
        elim ran.0 [
          | throw e ↦ (throw e, ran.1)
          | ok response ↦ (ok response, return_client exchange.client ran.1)
        ] in
      let went : get_request util get_http_error server s
          ≡ (throw (get_error r t).0, (get_error r t).1) =
        ap go (run_get_request-error get_error exchange t r v) in
      (
        (get_error r t).0,
        ap (λ ran. ran.0) went,
        subst (λ ran. IsVerdict util get_http_error r s ran.1 (get_error r t).0) (sym went)
            (verdict util get_http_error r s t sent_precondition
              (sent util get_http_error h' headers)
              (take_client-knows util get_http_error (record s { handle = h' }))),
      )
