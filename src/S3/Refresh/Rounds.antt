-- ===== src/S3/Refresh/Rounds.antt =====
-- How often a request to S3 is sent.
use haybarn_httpfs.Base.{
  ℕ, zero, suc, ◌+◌, ◌≤◌, ◌≡◌, refl, sym, ◌∙◌, ◌≢◌, inl, inr, Bool, true, false, Option, none, some,
  arith, if◌then◌else◌, Bool-cases, Option-cases, Text,
}
use haybarn_httpfs.Http.Types.{
  internal, out_of_fuel, Exception, Response, Result, throw, plain, Result-cases,
}
use haybarn_httpfs.S3.Refresh.{
  S3RequestData, Callbacks, catch_error, after_answer, send_once, run_request, run_s3_request,
}

-- How many more times the request can be sent.
abbrev sends_left : Bool → Bool → ℕ
sends_left retried_auth_refresh retried_region =
    (if retried_auth_refresh then 0 else 1) + (if retried_region then 0 else 1)

true-ne-false : true ≢ false
true-ne-false e = cc

few : (rr : Bool) → sends_left false rr ≤ 0 → 1 ≤ 0
few true h = h
few false h = omega arith

module _ {State : Type 0} (cb : Callbacks State) where
  refreshed-catch :
      (rr : Bool) (d : S3RequestData) (e : Exception) (s : State)
      → (catch_error cb true rr d e s).refreshed ≡ false
  unfolding catch_error
  refreshed-catch rr d e s = refl

  refreshed-once : (rr : Bool) (s : State) → (send_once cb true rr s).refreshed ≡ false
  unfolding send_once after_answer
  refreshed-once rr s = elim (Result-cases (cb.create_data s)) [
    | inr (e, a) ↦ rw (a, send_once) refl
    | inl (d, a) ↦ elim (Result-cases (cb.request d s).0) [
      | inr (e, b) ↦ rw (a, b, send_once) (refreshed-catch rr d e (cb.request d s).1)
      | inl (answer, b) ↦ rw (a, b, send_once) refl
    ]
  ]

  redirected-catch :
      (ra : Bool) (d : S3RequestData) (e : Exception) (s : State)
      → (catch_error cb ra true d e s).redirect ≡ none
  unfolding catch_error
  redirected-catch ra d e s = ground arith

  redirected-answer :
      (ra : Bool) (d : S3RequestData) (answer : Option Response) (s : State)
      → (after_answer cb ra true d answer s).redirect ≡ none
  unfolding after_answer
  redirected-answer ra d answer s = ground (arith, redirected-catch ra d)

  redirected-once : (ra : Bool) (s : State) → (send_once cb ra true s).redirect ≡ none
  unfolding send_once
  redirected-once ra s = elim (Result-cases (cb.create_data s)) [
    | inr (e, a) ↦ rw (a, send_once) refl
    | inl (d, a) ↦ elim (Result-cases (cb.request d s).0) [
      | inr (e, b) ↦ rw (a, b, send_once) (redirected-catch ra d e (cb.request d s).1)
      | inl (answer, b) ↦ rw (a, b, send_once) (redirected-answer ra d answer (cb.request d s).1)
    ]
  ]

  -- The three ways on from a request.
  run_request-again :
      (spent : Result (Option Response)) (fuel : ℕ) (ra rr : Bool) (s : State)
      → (send_once cb ra rr s).refreshed ≡ true
      → run_request spent cb (suc fuel) ra rr s
        ≡ run_request spent cb fuel true rr (send_once cb ra rr s).after
  unfolding run_request
  run_request-again spent fuel ra rr s e = rw (e, run_request) refl

  run_request-redirected :
      (spent : Result (Option Response)) (fuel : ℕ) (ra rr : Bool) (s : State) (region : Text)
      → (send_once cb ra rr s).refreshed ≡ false
      → (send_once cb ra rr s).redirect ≡ some region
      → run_request spent cb (suc fuel) ra rr s
        ≡ run_request spent cb fuel ra true (cb.set_region region (send_once cb ra rr s).after)
  unfolding run_request
  run_request-redirected spent fuel ra rr s region e f = rw (e, f, run_request) refl

  run_request-done :
      (spent : Result (Option Response)) (fuel : ℕ) (ra rr : Bool) (s : State)
      → (send_once cb ra rr s).refreshed ≡ false
      → (send_once cb ra rr s).redirect ≡ none
      → run_request spent cb (suc fuel) ra rr s
        ≡ ((send_once cb ra rr s).result, (send_once cb ra rr s).after)
  unfolding run_request
  run_request-done spent fuel ra rr s e f = rw (e, f, run_request) refl

  -- Two runs agree when they agree after the next request.
  run_request-step :
      (spent other : Result (Option Response)) (fuel more : ℕ) (ra rr : Bool) (s : State)
      → ((send_once cb ra rr s).refreshed ≡ true
          → run_request spent cb more true rr (send_once cb ra rr s).after
            ≡ run_request other cb fuel true rr (send_once cb ra rr s).after)
      → ((region : Text)
          → (send_once cb ra rr s).redirect ≡ some region
          → run_request spent cb more ra true (cb.set_region region (send_once cb ra rr s).after)
            ≡ run_request other cb fuel ra true (cb.set_region region (send_once cb ra rr s).after))
      → run_request spent cb (suc more) ra rr s ≡ run_request other cb (suc fuel) ra rr s
  run_request-step spent other fuel more ra rr s refreshing redirecting =
      elim (Bool-cases (send_once cb ra rr s).refreshed) [
        | inl e ↦
            run_request-again spent more ra rr s e
            ∙ refreshing e
            ∙ sym (run_request-again other fuel ra rr s e)
        | inr e ↦ elim (Option-cases (send_once cb ra rr s).redirect) [
          | inl f ↦
              run_request-done spent more ra rr s e f
              ∙ sym (run_request-done other fuel ra rr s e f)
          | inr (region, f) ↦
              run_request-redirected spent more ra rr s region e f
              ∙ redirecting region f
              ∙ sym (run_request-redirected other fuel ra rr s region e f)
        ]
      ]

  run_request-fuel :
      (spent other : Result (Option Response)) (fuel more : ℕ) (ra rr : Bool) (s : State)
      → sends_left ra rr ≤ fuel
      → fuel ≤ more
      → run_request spent cb (suc more) ra rr s ≡ run_request other cb (suc fuel) ra rr s
  run_request-fuel spent other fuel more true true s enough le =
      run_request-step spent other fuel more true true s
        (λ e. absurd (true-ne-false (sym e ∙ refreshed-once true s)))
        (λ region f. absurd (ground (arith, f, redirected-once true s)))
  run_request-fuel spent other (suc fuel) (suc more) true false s enough le =
      run_request-step spent other (suc fuel) (suc more) true false s
        (λ e. absurd (true-ne-false (sym e ∙ refreshed-once false s)))
        (λ region f.
          run_request-fuel spent other fuel more true true
            (cb.set_region region (send_once cb true false s).after) (omega arith) (omega arith))
  run_request-fuel spent other (suc fuel) (suc more) false true s enough le =
      run_request-step spent other (suc fuel) (suc more) false true s
        (λ e.
          run_request-fuel spent other fuel more true true (send_once cb false true s).after
            (omega arith) (omega arith))
        (λ region f. absurd (ground (arith, f, redirected-once false s)))
  run_request-fuel spent other (suc fuel) (suc more) false false s enough le =
      run_request-step spent other (suc fuel) (suc more) false false s
        (λ e.
          run_request-fuel spent other fuel more true false (send_once cb false false s).after
            (omega arith) (omega arith))
        (λ region f.
          run_request-fuel spent other fuel more false true
            (cb.set_region region (send_once cb false false s).after) (omega arith) (omega arith))
  run_request-fuel spent other zero more true false s enough le = absurd (omega arith)
  run_request-fuel spent other zero more false rr s enough le =
      absurd (omega (arith, few rr enough))
  run_request-fuel spent other (suc fuel) zero true false s enough le = absurd (omega arith)
  run_request-fuel spent other (suc fuel) zero false rr s enough le = absurd (omega arith)

  -- A request to S3 is sent at most three times, once more for a refresh and once more for another
  -- region: with fuel for three requests or more, and whatever stands for spent fuel, the result and
  -- the state are those of the model's fuel. The callbacks are any, and throw wherever they like.
  pub run_s3_request-three_requests :
      (spent : Result (Option Response)) (fuel : ℕ) (s : State)
      → run_request spent cb (suc (suc (suc fuel))) false false s ≡ run_s3_request cb s
  run_s3_request-three_requests spent fuel s =
      run_request-fuel spent (throw (plain internal out_of_fuel)) 2 (suc (suc fuel)) false false s
        (omega arith) (omega arith)
