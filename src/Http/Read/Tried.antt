-- ===== src/Http/Read/Tried.antt =====
-- TryRangeRequest: the bytes that it reads, and what of the handle it leaves alone.
use haybarn_httpfs.Base.{
  ℕ, ◌^◌, ◌<◌, ◌≡◌, refl, ap, ◌∙◌, true, ◌||◌, Option, none, some, List, arith, ◌==◌, length, take,
  drop,
}
use haybarn_httpfs.Http.Types.{Exception, Response, Result, ok, throw}
use haybarn_httpfs.Http.Handle.{Session, HttpUtil}
use haybarn_httpfs.Http.Range.{Server, get_range_request}
use haybarn_httpfs.Http.Range.Frame.{view, view-get_range_request}
use haybarn_httpfs.Http.Range.Serves.{ServesFile, get_range_request-bytes}
use haybarn_httpfs.Http.Read.{or_empty, judge_range, try_range_request}

view-judge_range :
    (util : HttpUtil) (offset n : ℕ) (result : Result (Option Response)) (s : Session)
    → view (judge_range util offset n result s).1 ≡ view s
unfolding judge_range
view-judge_range util offset n (throw e) s = refl
view-judge_range util offset n (ok none) s = refl
view-judge_range util offset n (ok (some r)) s = ground arith

judge_range-true :
    (util : HttpUtil) (offset n : ℕ) (result : Result (Option Response)) (s : Session)
    → (judge_range util offset n result s).0 ≡ ok true
    → (r : Response) × (result ≡ ok (some r))
      × (r.request_error ≡ none)
      × ((r.success || (r.status == 206 || r.status == 202)) ≡ true)
unfolding judge_range
judge_range-true util offset n (throw e) s h = cc
judge_range-true util offset n (ok none) s h = cc
judge_range-true util offset n (ok (some r)) s h = (r, refl, ground arith, ground arith)

module _ (util : HttpUtil) (get_http_error : Response → Exception) (server : Server) where
  pub view-try_range_request :
      (offset n : ℕ) (out : List ℕ) (s : Session)
      → view (try_range_request util get_http_error server offset out n s).2 ≡ view s
  unfolding try_range_request
  view-try_range_request offset n out s =
      let t = get_range_request util get_http_error server offset (some out) n s in
      view-judge_range util offset n t.0 t.1.session
      ∙ view-get_range_request util get_http_error server offset n (some out) s

  pub try_range_request-bytes :
      (file : List ℕ) (offset n : ℕ) (out : List ℕ) (s : Session)
      → ServesFile file server
      → n < 2 ^ 63
      → length out ≡ n
      → (try_range_request util get_http_error server offset out n s).0 ≡ ok true
      → ((try_range_request util get_http_error server offset out n s).1
          ≡ take n (drop offset file))
        × (length (take n (drop offset file)) ≡ n)
  unfolding try_range_request
  try_range_request-bytes file offset n out s serves small sized went =
      let t = get_range_request util get_http_error server offset (some out) n s in
      let (r, got, no_error, accepted) = judge_range-true util offset n t.0 t.1.session went in
      let (bytes, full) =
        get_range_request-bytes util get_http_error server file serves offset n out s r small sized
          got no_error accepted in
      (ap or_empty bytes, full)
