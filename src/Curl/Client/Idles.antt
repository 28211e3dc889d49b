-- ===== src/Curl/Client/Idles.antt =====
-- One transfer: the options that it is made with and those that it leaves.
use haybarn_httpfs.Base.{
  ◌≡◌, refl, ap, ◌∙◌, inl, inr, Bool, Option, none, some, List, [], ◌++◌, arith, if◌then◌else◌,
  Option-cases, concat, Text, count,
}
use haybarn_httpfs.Curl.Headers.{
  Headers, CurlUtil, collect_lines, identity, reject_if_content_encoding_violation,
}
use haybarn_httpfs.Curl.Options.{
  Easy, Counters, Client, Request, Answer, Curl, Ran, set_easy, reset_request_info,
  require_identity_response, allow_compressed_response, arm_cancellation, check_cancelled,
}
use haybarn_httpfs.Curl.Client.{prepare, execute, judge_transfer, conclude}
use haybarn_httpfs.Curl.Client.Calls.{Collects}

module _ (util : CurlUtil) where
  -- How a transfer ends: with the options it was armed with, which are then restored.
  pub record Ends (restore : Easy → Easy) (executed : Easy) (result : Option Ran) : Type 0 where
    pub ran : Ran
    pub returned : result ≡ some ran
    pub executed_with : ran.executed ≡ executed
    pub restored : ran.after.easy ≡ restore executed

  -- A step that follows a transfer and leaves the options.
  abbrev pub KeepsOptions : (Answer → Ran → Ran) → Type 0
  KeepsOptions deliver =
      (answer : Answer) (ran : Ran)
      → ((deliver answer ran).executed ≡ ran.executed)
        × ((deliver answer ran).after.easy ≡ ran.after.easy)

  pub judge_transfer-options :
      (method : Text) (deliver : Answer → Ran → Ran) (answer : Answer) (r : Request) (armed : Easy)
      (c : Client)
      → KeepsOptions deliver
      → ((judge_transfer util method deliver answer r armed c).executed ≡ armed)
        × ((judge_transfer util method deliver answer r armed c).after.easy ≡ c.easy)
  unfolding judge_transfer
  judge_transfer-options method deliver answer r armed c keeps =
      elim (Option-cases (check_cancelled answer r method c.info)) [
        | inr (response, e) ↦ rw (e, judge_transfer) (refl, refl)
        | inl e ↦
            elim (Option-cases (
              reject_if_content_encoding_violation util
                (record c.info { response_code = answer.response_code }))) [
                  | inr (response, e') ↦ rw (e, e', judge_transfer) (refl, refl)
                  | inl e' ↦ rw (e, e', judge_transfer) (keeps answer _)
                ]
      ]

  abbrev pub executed_client : Answer → Client → List Headers → Client
  executed_client answer c collection = record c {
    info = record c.info {
      header_collection = collection;
      body = c.info.body ++ concat answer.chunks;
    };
  }

  execute-collects :
      (answer : Answer) (c : Client) (collection : List Headers)
      → c.info.header_collection ≡ []
      → collect_lines util answer.lines [] ≡ some collection
      → execute util answer c ≡ some (executed_client answer c collection)
  unfolding execute
  execute-collects answer c collection fresh e =
      ap (λ m. elim m [ none ↦ none | some l ↦ some (executed_client answer c l) ])
        (ap (collect_lines util answer.lines) fresh ∙ e)

  info-arm : (r : Request) (c : Client) → (arm_cancellation r c).info ≡ c.info
  unfolding arm_cancellation
  info-arm r c = ground arith

  conclude-Ends :
      (restore : Easy → Easy) (method : Text) (deliver : Answer → Ran → Ran) (curl : Curl)
      (r : Request) (c : Client)
      → KeepsOptions deliver
      → Collects util curl
      → c.info.header_collection ≡ []
      → Ends restore (arm_cancellation r c).easy (conclude util restore method deliver curl r c)
  unfolding conclude
  conclude-Ends restore method deliver curl r c keeps collects fresh =
      let armed = arm_cancellation r c in
      let answer = curl armed.easy in
      let (collection, e) = collects armed.easy in
      let did =
        execute-collects answer armed collection
          (ap (λ i. i.header_collection) (info-arm r c) ∙ fresh) e in
      let restored_client = set_easy restore (executed_client answer armed collection) in
      let (same, restored) =
        judge_transfer-options method deliver answer r armed.easy restored_client keeps in
      record {
        ran = judge_transfer util method deliver answer r armed.easy restored_client;
        returned =
            ap
              (λ m. elim m [
                | none ↦ none
                | some x ↦
                    some
                      (judge_transfer util method deliver answer r armed.easy (set_easy restore x))
              ])
              did;
        executed_with = same;
        restored = restored;
      }

  prepared_easy :
      (count : Counters → Counters) (identity_only : Bool) (r : Request) (c : Client)
      → ((prepare util count identity_only r c).easy ≡ record c.easy {
        accept_encoding = some (if identity_only then identity else []);
        cancellation = none;
      })
        × ((prepare util count identity_only r c).info.header_collection ≡ [])
  unfolding prepare allow_compressed_response reset_request_info require_identity_response
  prepared_easy count identity_only r c = ground arith

  armed_easy :
      (r : Request) (c : Client)
      → c.easy.cancellation ≡ none
      → (arm_cancellation r c).easy ≡ record c.easy { cancellation = r.cancellation }
  unfolding arm_cancellation
  armed_easy r c disarmed = ground arith

  -- The options of a request that sets `f` of them.
  pub request-Ends :
      (restore f : Easy → Easy) (count : Counters → Counters) (identity_only : Bool) (method : Text)
      (deliver : Answer → Ran → Ran) (curl : Curl) (r : Request) (c : Client)
      → ((e : Easy) → (f e).cancellation ≡ e.cancellation)
      → KeepsOptions deliver
      → Collects util curl
      → Ends restore
          (record (f (record c.easy {
            accept_encoding = some (if identity_only then identity else []);
            cancellation = none;
          })) { cancellation = r.cancellation })
          (conclude util restore method deliver curl r
            (set_easy f (prepare util count identity_only r c)))
  request-Ends restore f count identity_only method deliver curl r c spares keeps collects =
      let c' = prepare util count identity_only r c in
      let (easy, fresh) = prepared_easy count identity_only r c in
      let disarmed : (f c'.easy).cancellation ≡ none =
        spares c'.easy ∙ ap (λ e. e.cancellation) easy in
      let ends = conclude-Ends restore method deliver curl r (set_easy f c') keeps collects fresh in
      let armed =
        armed_easy r (set_easy f c') disarmed
        ∙ ap (λ e. record (f e) { cancellation = r.cancellation }) easy in
      record {
        ran = ends.ran;
        returned = ends.returned;
        executed_with = ends.executed_with ∙ armed;
        restored = ends.restored ∙ ap restore armed;
      }
