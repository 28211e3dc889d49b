-- ===== src/Curl/Client/Handed.antt =====
-- The bytes that a GET hands to the content handler.
use mathlib.Core.Path.{subst}
use haybarn_httpfs.Base.{
  ℕ, ◌+◌, ◌≡◌, refl, sym, ap, ◌∙◌, ◌⊎◌, inl, inr, Bool, true, false, Option, none, some, List, [],
  ◌++◌, arith, ltb, Option-cases, concat, Text, codes, text_eq, count,
}
use haybarn_httpfs.Curl.Headers.{
  Headers, CurlUtil, collect_lines, RequestInfo, identity, content_encoding,
  reject_if_content_encoding_violation, transform_response_curl,
}
use haybarn_httpfs.Curl.Options.{
  Easy, Counters, Client, Request, Answer, Curl, Ran, set_easy, reset_request_info,
  require_identity_response, allow_compressed_response, arm_cancellation, check_cancelled,
  get_options,
}
use haybarn_httpfs.Curl.Client.{
  request_is_range_request, transform_headers_curl, with_user_agent, prepare, execute,
  judge_transfer, conclude, deliver_get, get,
}
use haybarn_httpfs.Curl.Client.Idles.{judge_transfer-options, executed_client}
use haybarn_httpfs.Curl.Client.Sequences.{deliver_get-KeepsOptions}

module _ (util : CurlUtil) where
  -- What a response with bytes for the handler comes from.
  pub record IsHanded (answer : Answer) (r : Request) (ran : Ran) (bytes : Text) : Type 0 where
    pub whole_body : bytes ≡ concat answer.chunks
    pub succeeded : answer.res ≡ 0
    pub low_status : ltb answer.response_code 400 ≡ true
    pub wanted : r.has_content_handler ≡ true
    pub identity_encoded :
        (value : Text)
        → content_encoding util ran.after.info ≡ some value
        → request_is_range_request util (with_user_agent util r) r.params ≡ true
        → text_eq (util.lower value) identity ≡ true

  -- Where the handling of a transfer that succeeded may hand bytes over.
  deliver_get-handed :
      (r : Request) (answer : Answer) (ran : Ran) (bytes : Text)
      → ran.handed ≡ none
      → (deliver_get util r answer ran).handed ≡ some bytes
      → (bytes ≡ ran.after.info.body)
        × (answer.res ≡ 0)
        × (ltb ran.response.status 400 ≡ true)
        × (r.has_content_handler ≡ true)
        × ((deliver_get util r answer ran).after.info ≡ ran.after.info)
  unfolding deliver_get
  deliver_get-handed r answer ran bytes before handed =
      (ground arith, ground arith, ground arith, ground arith, ground arith)

  status-transform_response_curl :
      (res : ℕ) (info : RequestInfo)
      → (transform_response_curl util res info).status ≡ info.response_code
  unfolding transform_response_curl
  status-transform_response_curl res info = ground arith

  reject-none :
      (info : RequestInfo) (value : Text)
      → reject_if_content_encoding_violation util info ≡ none
      → info.sent_identity_only ≡ true
      → content_encoding util info ≡ some value
      → text_eq (util.lower value) identity ≡ true
  unfolding reject_if_content_encoding_violation
  reject-none info value accepted only encoded = ground arith

  -- The status as it is read from the handle.
  abbrev with_status : Answer → RequestInfo → RequestInfo
  with_status answer info = record info { response_code = answer.response_code }

  -- What `judge_transfer` passes on for delivery.
  abbrev delivered : Answer → Easy → Client → Ran
  delivered answer armed c = record {
    response = transform_response_curl util answer.res (with_status answer c.info);
    executed = armed;
    handed = none;
    buffer_out = [];
    after = record c { info = with_status answer c.info };
  }

  judge_transfer-cases :
      (method : Text) (deliver : Answer → Ran → Ran) (answer : Answer) (r : Request) (armed : Easy)
      (c : Client)
      → ((judge_transfer util method deliver answer r armed c).handed ≡ none)
        ⊎ ((judge_transfer util method deliver answer r armed c
              ≡ deliver answer (delivered answer armed c))
            × (reject_if_content_encoding_violation util (with_status answer c.info) ≡ none))
  unfolding judge_transfer
  judge_transfer-cases method deliver answer r armed c =
      elim (Option-cases (check_cancelled answer r method c.info)) [
        | inr (response, e) ↦ inl (rw (e, judge_transfer) refl)
        | inl e ↦
            elim (Option-cases
              (reject_if_content_encoding_violation util (with_status answer c.info))) [
                | inr (response, e') ↦ inl (rw (e, e', judge_transfer) refl)
                | inl e' ↦ inr (rw (e, e', judge_transfer) refl, e')
              ]
      ]

  judge_transfer-handed :
      (method : Text) (r : Request) (answer : Answer) (armed : Easy) (c : Client) (bytes : Text)
      → (judge_transfer util method (deliver_get util r) answer r armed c).handed ≡ some bytes
      → (bytes ≡ c.info.body)
        × (answer.res ≡ 0)
        × (ltb answer.response_code 400 ≡ true)
        × (r.has_content_handler ≡ true)
        × (reject_if_content_encoding_violation util (with_status answer c.info) ≡ none)
        × ((judge_transfer util method (deliver_get util r) answer r armed c).after.info
            ≡ with_status answer c.info)
  judge_transfer-handed method r answer armed c bytes handed =
      elim (judge_transfer-cases method (deliver_get util r) answer r armed c) [
        | inl nothing ↦ absurd (ground (arith, nothing, handed))
        | inr (same, accepted) ↦
            let (whole, ok_code, low, wanted, info) =
              deliver_get-handed r answer (delivered answer armed c) bytes refl
                (ap (λ x. x.handed) (sym same) ∙ handed) in
            let status = status-transform_response_curl answer.res (with_status answer c.info) in
            (
              whole,
              ok_code,
              ap (λ n. ltb n 400) (sym status) ∙ low,
              wanted,
              accepted,
              ap (λ x. x.after.info) same ∙ info,
            )
      ]

  executed-info :
      (answer : Answer) (c c' : Client) (collected : Option (List Headers))
      → (elim collected as (λ m. Option Client) [
        | none ↦ none
        | some l ↦ some (executed_client util answer c l)
      ])
        ≡ some c'
      → (c'.info.body ≡ c.info.body ++ concat answer.chunks)
        × (c'.info.sent_identity_only ≡ c.info.sent_identity_only)
  executed-info answer c c' none e = absurd (ground (arith, e))
  executed-info answer c c' (some l) e = (
    ap (λ m. elim m [ none ↦ [] | some x ↦ x.info.body ]) (sym e),
    ap (λ m. elim m [ none ↦ false | some x ↦ x.info.sent_identity_only ]) (sym e),
  )

  execute-info :
      (answer : Answer) (c c' : Client)
      → execute util answer c ≡ some c'
      → (c'.info.body ≡ c.info.body ++ concat answer.chunks)
        × (c'.info.sent_identity_only ≡ c.info.sent_identity_only)
  unfolding execute
  execute-info answer c c' e =
      executed-info answer c c' (collect_lines util answer.lines c.info.header_collection) e

  prepare-info :
      (count : Counters → Counters) (identity_only : Bool) (r : Request) (c : Client)
      → ((prepare util count identity_only r c).info.body ≡ [])
        × ((prepare util count identity_only r c).info.sent_identity_only ≡ identity_only)
  unfolding prepare allow_compressed_response reset_request_info require_identity_response
  prepare-info count identity_only r c = (ground arith, ground arith)

  info-armed : (r : Request) (c : Client) → (arm_cancellation r c).info ≡ c.info
  unfolding arm_cancellation
  info-armed r c = ground arith

  -- A transfer that was concluded, as `judge_transfer` made it.
  conclude-ran :
      (f : Easy → Easy) (method : Text) (deliver : Answer → Ran → Ran) (curl : Curl) (r : Request)
      (c : Client) (ran : Ran)
      → conclude util f method deliver curl r c ≡ some ran
      → (x : Client) × (execute util (curl (arm_cancellation r c).easy) (arm_cancellation r c)
          ≡ some x)
        × (judge_transfer util method deliver
              (curl (arm_cancellation r c).easy)
              r
              (arm_cancellation r c).easy
              (set_easy f x)
            ≡ ran)
  unfolding conclude
  conclude-ran f method deliver curl r c ran returned =
      elim (Option-cases (execute util (curl (arm_cancellation r c).easy) (arm_cancellation r c))) [
        | inl nothing ↦ absurd (ground (arith, nothing, returned))
        | inr (x, e) ↦
            let judged =
              judge_transfer util method deliver (curl (arm_cancellation r c).easy) r
                (arm_cancellation r c).easy (set_easy f x) in
            let same : some judged ≡ some ran =
              ap
                (λ m. elim m [
                  | none ↦ none
                  | some y ↦ some (
                      judge_transfer util method deliver (curl (arm_cancellation r c).easy) r
                        (arm_cancellation r c).easy (set_easy f y))
                ])
                (sym e)
              ∙ returned in
            (x, e, ap (λ m. elim m [ none ↦ judged | some y ↦ y ]) same)
      ]

  -- When a GET returns and has handed bytes to the content handler, these are the bytes that libcurl
  -- delivered for this transfer, all of them and in order; libcurl reported success, the status is
  -- below 400, and the request has a handler. For a range request, a Content-Encoding in the last
  -- headers of the response is identity.
  pub get-IsHanded :
      (curl : Curl) (r : Request) (c : Client) (ran : Ran) (bytes : Text)
      → get util curl r c ≡ some ran
      → ran.handed ≡ some bytes
      → IsHanded (curl ran.executed) r ran bytes
  unfolding get
  get-IsHanded curl r c ran bytes returned handed =
      let headers = with_user_agent util r in
      let only = request_is_range_request util headers r.params in
      let count : Counters → Counters = λ n. record n { get_count = n.get_count + 1 } in
      let set =
        set_easy (get_options r (transform_headers_curl util headers r.params))
          (prepare util count only r c) in
      let armed = arm_cancellation r set in
      let (x, did, judged) =
        conclude-ran (λ e. e) (codes "GET") (deliver_get util r) curl r set ran returned in
      let (whole, ok_code, low, wanted, accepted, info) =
        judge_transfer-handed (codes "GET") r (curl armed.easy) armed.easy x bytes
          (ap (λ y. y.handed) judged ∙ handed) in
      let (body, sent_only) = execute-info (curl armed.easy) armed x did in
      let (fresh, is_only) = prepare-info count only r c in
      let (same, kept) =
        judge_transfer-options util (codes "GET") (deliver_get util r) (curl armed.easy) r
          armed.easy x (deliver_get-KeepsOptions util r) in
      let executed : ran.executed ≡ armed.easy = ap (λ y. y.executed) (sym judged) ∙ same in
      subst (λ e. IsHanded (curl e) r ran bytes) (sym executed)
        (record {
          whole_body =
              whole
              ∙ body
              ∙ ap (λ i. i.body ++ concat (curl armed.easy).chunks) (info-armed r set)
              ∙ ap (λ b. b ++ concat (curl armed.easy).chunks) fresh;
          succeeded = ok_code;
          low_status = low;
          wanted = wanted;
          identity_encoded = λ value encoded range.
              reject-none (with_status (curl armed.easy) x.info) value accepted
                (sent_only ∙ ap (λ i. i.sent_identity_only) (info-armed r set) ∙ is_only ∙ range)
                (ap (content_encoding util) (sym (ap (λ y. y.after.info) (sym judged) ∙ info))
                  ∙ encoded);
        })
