-- ===== src/Http/Range/Serves.antt =====
-- Range requests to a server that holds a file.
use haybarn_httpfs.Base.{
  ℕ, zero, suc, ◌^◌, ◌<◌, ◌≡◌, refl, sym, ap, ◌∙◌, inl, inr, true, ◌||◌, none, some, List, [], ◌∷◌,
  arith, ◌==◌, Bool-cases, length, take, drop,
}
use haybarn_httpfs.Http.Types.{Exception, Response, ok}
use haybarn_httpfs.Http.Handle.{Session, HttpUtil}
use haybarn_httpfs.Http.Range.{RangeRequest, Server, get_range_request}
use haybarn_httpfs.Http.Range.Complete.{
  received, ChunksFit, ReportsThrows, run_get_range_request-response,
  run_get_range_request_complete,
}
use haybarn_httpfs.Http.Range.Frame.{
  request, client_session, exchange, get_range_request-ran, request-first,
}

-- The server answers a range request with bytes of the file from the first requested one on, and may
-- stop early. HTTPUtil reports what a callback throws, and Success() holds of a response with status
-- 206 or 202 that has no request error.
pub record ServesFile (file : List ℕ) (server : Server) : Type 0 where
  pub fits : (k client : ℕ) (q : RangeRequest) → ChunksFit (server k client q).events
  pub reports : (k client : ℕ) (q : RangeRequest) → ReportsThrows (server k client q)
  pub sends :
      (k client : ℕ) (q : RangeRequest)
      → (m : ℕ) × (received [] (server k client q).events ≡ take m (drop q.first file))
  pub succeeds :
      (k client : ℕ) (q : RangeRequest) (r : Response)
      → (server k client q).response ≡ some r
      → r.request_error ≡ none
      → (r.status == 206 || r.status == 202) ≡ true
      → r.success ≡ true

take-of_length {ℓ} :
    {A : Type ℓ} (m n : ℕ) (xs : List A) → length (take m xs) ≡ n → take m xs ≡ take n xs
take-of_length zero zero xs h = refl
take-of_length zero (suc n) xs h = absurd (omega arith)
take-of_length (suc m) zero [] h = refl
take-of_length (suc m) (suc n) [] h = refl
take-of_length (suc m) zero (x ∷ xs) h = absurd (omega arith)
take-of_length (suc m) (suc n) (x ∷ xs) h = ap (λ l. x ∷ l) (take-of_length m n xs (omega arith))

module _ (util : HttpUtil) (get_http_error : Response → Exception) (server : Server) (file : List ℕ)
    (serves : ServesFile file server) where
  -- A response of GetRangeRequest that counts as a success comes with the bytes of the range.
  pub get_range_request-bytes :
      (offset n : ℕ) (out : List ℕ) (s : Session) (r : Response)
      → n < 2 ^ 63
      → length out ≡ n
      → (get_range_request util get_http_error server offset (some out) n s).0 ≡ ok (some r)
      → r.request_error ≡ none
      → (r.success || (r.status == 206 || r.status == 202)) ≡ true
      → ((get_range_request util get_http_error server offset (some out) n s).1.out
          ≡ some (take n (drop offset file)))
        × (length (take n (drop offset file)) ≡ n)
  get_range_request-bytes offset n out s r small sized went no_error accepted =
      let (same, same_out, _) =
        get_range_request-ran util get_http_error server offset n (some out) s in
      let x = exchange util get_http_error server offset n (some out) s in
      let q = request util get_http_error server offset n (some out) s in
      let client = (client_session util get_http_error server offset n (some out) s).0 in
      let reports = serves.reports s.requests client q in
      let ran_ok = sym same ∙ went in
      let response = run_get_range_request-response util _ _ n x out _ r reports ran_ok no_error in
      let success : r.success ≡ true = elim (Bool-cases r.success) [
        | inl e ↦ e
        | inr e ↦ serves.succeeds s.requests client q r response no_error (rw e at accepted)
      ] in
      let (filled, full) =
        run_get_range_request_complete util _ _ n x out _ r small sized
          (serves.fits s.requests client q) reports ran_ok no_error success in
      let (m, sent) = serves.sends s.requests client q in
      let from_offset : received [] x.events ≡ take m (drop offset file) =
        sent
        ∙ ap (λ o. take m (drop o file))
            (request-first util get_http_error server offset n (some out) s) in
      let taken : received [] x.events ≡ take n (drop offset file) =
        from_offset ∙ take-of_length m n _ (ap length (sym from_offset) ∙ full) in
      (same_out ∙ filled ∙ ap some taken, ap length (sym taken) ∙ full)
