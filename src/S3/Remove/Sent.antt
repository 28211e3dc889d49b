-- ===== src/S3/Remove/Sent.antt =====
-- The body of a request that a batch sends.
use haybarn_httpfs.Base.{
  ℕ, zero, suc, ◌+◌, ◌≡◌, refl, sym, ap, ◌∙◌, ◌≢◌, inl, inr, Bool, true, Option, none, some, arith,
  Option-cases, Text,
}
use haybarn_httpfs.Http.Types.{Exception, Response, Result, ok, throw, Result-cases}
use haybarn_httpfs.S3.Auth.{S3AuthParams}
use haybarn_httpfs.S3.Url.{s3_url_parse}
use haybarn_httpfs.S3.Remove.{
  DeleteRequest, RemoveUtil, delete_request, answered, refreshed_params, send_delete, judge_delete,
  judge_answer,
}

ok_of : {a b : DeleteRequest} → ok a ≡ ok b → a ≡ b
ok_of {a = a} e = ap (λ r. elim r [ ok x ↦ x | throw t ↦ a ]) e

not_ok : {x : Exception} {a : DeleteRequest} → throw x ≢ ok a
not_ok e = ground (arith, e)

module _ (util : RemoveUtil) where
  delete_request-body :
      (url : Text) (p : S3AuthParams) (body : Text) (request : DeleteRequest)
      → delete_request util url p body ≡ ok request
      → request.body ≡ body
  unfolding delete_request
  delete_request-body url p body request e =
      elim (Result-cases (s3_url_parse util.url_util url p)) [
        | inr (x, failed) ↦ absurd (ground (arith, failed, e))
        | inl (parsed, went) ↦ ground (arith, went, e)
      ]

  judge_answer-request :
      (answer : Result (Option Response)) (sent request : DeleteRequest)
      → judge_answer util (answered util sent answer) ≡ ok request
      → request ≡ sent
  judge_answer-request (throw x) sent request e = absurd (not_ok e)
  judge_answer-request (ok none) sent request e = absurd (not_ok e)
  judge_answer-request (ok (some r)) sent request e = elim (Result-cases (judge_delete util r)) [
    | inr (x, failed) ↦ absurd (ground (arith, failed, e))
    | inl (_, went) ↦ ground (arith, went, e)
  ]

  -- An accepted request has the body that was to be sent, whether it was sent again or not.
  pub send_delete-body :
      (fuel : ℕ) (retried : Bool) (url body : Text) (p : S3AuthParams) (n : ℕ)
      (request : DeleteRequest)
      → judge_answer util (send_delete util fuel retried url body p n).0 ≡ ok request
      → request.body ≡ body
  unfolding send_delete
  send_delete-body zero retried url body p n request e = absurd (not_ok e)
  send_delete-body (suc fuel) retried url body p n request e =
      elim (Result-cases (delete_request util url p body)) [
        | inr (x, failed) ↦ absurd (ground (arith, failed, e))
        | inl (sent, went) ↦
            let answer = util.post n sent in
            elim (Option-cases (refreshed_params util retried answer n url p)) [
              | inl done ↦
                  let step : send_delete util (suc fuel) retried url body p n
                      ≡ (answered util sent answer, p, n + 1) =
                    rw (went, done, send_delete) refl in
                  ap (λ r. r.body)
                    (judge_answer-request answer sent request
                      (ap (λ s. judge_answer util s.0) (sym step) ∙ e))
                  ∙ delete_request-body url p body sent went
              | inr (p', again) ↦
                  let step : send_delete util (suc fuel) retried url body p n
                      ≡ send_delete util fuel true url body p' (n + 1) =
                    rw (went, again, send_delete) refl in
                  send_delete-body fuel true url body p' (n + 1) request
                    (ap (λ s. judge_answer util s.0) (sym step) ∙ e)
            ]
      ]
