-- ===== src/Curl/Client.antt =====
-- The requests of HTTPFSCurlClient (httpfs_curl_client.cpp).
mod Calls
mod Idles
mod Sequences
mod Handed
mod Tests
use haybarn_httpfs.Base.{
  ◌+◌, Bool, true, false, ◌&&◌, ◌||◌, not, Option, none, some, List, [], ◌∷◌, ◌++◌, ltb, ◌==◌,
  if◌then◌else◌, length, concat, Text, codes, text_eq, is_empty, count,
}
use haybarn_httpfs.Http.Handle.{Params}
use haybarn_httpfs.Curl.Headers.{
  Headers, CurlUtil, find_header, collect_lines, CurlResponse, reject_if_content_encoding_violation,
  transform_response_curl,
}
use haybarn_httpfs.Curl.Options.{
  Easy, Counters, Client, Request, Answer, Curl, Ran, counted, set_easy, reset_request_info,
  allow_compressed_response, arm_cancellation, check_cancelled, octet_stream, get_options,
  put_options, head_options, delete_options, post_options, restore_put, restore_head,
  restore_delete, restore_post,
}

module _ (util : CurlUtil) where
  unfoldable pub is_header_named : Text → Text → Bool
  is_header_named name k = text_eq (util.lower k) name

  unfoldable pub any_header_named : Text → Headers → Bool
  unfolding is_header_named
  any_header_named name [] = false
  any_header_named name ((k, v) ∷ headers) = is_header_named name k || any_header_named name headers

  unfoldable pub request_is_range_request : Headers → Params → Bool
  unfolding find_header any_header_named
  request_is_range_request headers params =
      elim (find_header util (codes "Range") headers) [ none ↦ false | some v ↦ true ]
      || any_header_named (codes "range") params.extra_headers

  unfoldable pub header_lines : Headers → List Text
  unfolding is_header_named
  header_lines [] = []
  header_lines ((k, v) ∷ headers) =
      if is_header_named (codes "accept-encoding") k
      then header_lines headers
      else (k ++ codes ": " ++ v) ∷ header_lines headers

  unfoldable pub transform_headers_curl : Headers → Params → List Text
  unfolding header_lines
  transform_headers_curl headers params =
      header_lines headers
      ++ (if params.pre_merged_headers then [] else header_lines params.extra_headers)

  unfoldable pub with_user_agent : Request → Headers
  with_user_agent r =
      if is_empty r.params.user_agent
      then r.headers
      else util.insert_header (codes "User-Agent") r.params.user_agent r.headers

  -- What the requests begin with: the counters, the URL and Accept-Encoding.
  unfoldable pub prepare : (Counters → Counters) → Bool → Request → Client → Client
  unfolding reset_request_info allow_compressed_response
  prepare count only_identity r c =
      let reset = counted count (reset_request_info c) in
      let encoded = allow_compressed_response only_identity reset in
      record encoded { info = record encoded.info { url = r.url } }

  -- curl->Execute(), with the header callback and the write callback. `none` is an exception that
  -- leaves a callback.
  unfoldable pub execute : Answer → Client → Option Client
  unfolding collect_lines
  execute answer c = elim (collect_lines util answer.lines c.info.header_collection) [
    | none ↦ none
    | some collection ↦ some (record c {
      info = record c.info {
        header_collection = collection;
        body = c.info.body ++ concat answer.chunks;
      };
    })
  ]

  -- What follows a transfer: the cancellation, the status, the encoding, or else `deliver`.
  unfoldable pub judge_transfer :
      Text → (Answer → Ran → Ran) → Answer → Request → Easy → Client → Ran
  unfolding check_cancelled reject_if_content_encoding_violation transform_response_curl
  judge_transfer method deliver answer r armed c =
      let ran : CurlResponse → Client → Ran = λ response after. record {
        response = response;
        executed = armed;
        handed = none;
        buffer_out = [];
        after = after;
      } in
      elim (check_cancelled answer r method c.info) [
        | some response ↦ ran response c
        | none ↦
            let c' : Client = record c {
              info = record c.info { response_code = answer.response_code };
            } in
            elim (reject_if_content_encoding_violation util c'.info) [
              | some response ↦ ran response c'
              | none ↦ deliver answer (ran (transform_response_curl util answer.res c'.info) c')
            ]
      ]

  unfoldable pub conclude :
      (Easy → Easy) → Text → (Answer → Ran → Ran) → Curl → Request → Client → Option Ran
  unfolding execute arm_cancellation judge_transfer
  conclude restore method deliver curl r c =
      let armed = arm_cancellation r c in
      let answer = curl armed.easy in
      elim (execute answer armed) [
        | none ↦ none
        | some executed ↦
            some (judge_transfer method deliver answer r armed.easy (set_easy restore executed))
      ]

  -- The handling of a response to a GET: the counter, and the two handlers. The comparison of the
  -- Content-Length with the bytes has no effect.
  unfoldable pub deliver_get : Request → Answer → Ran → Ran
  deliver_get r answer ran =
      let body = ran.after.info.body in
      let received : Ran = record ran {
        after =
            counted (λ n. record n { total_bytes_received = n.total_bytes_received + length body })
              ran.after;
      } in
      let accepted : Bool = elim r.response_handler [
        | none ↦ true
        | some handler ↦ handler ran.response
      ] in
      if not accepted
      then received
      else if r.has_content_handler && (answer.res == 0 && ltb ran.response.status 400)
      then record received { handed = some body }
      else received

  unfoldable pub get : Curl → Request → Client → Option Ran
  unfolding prepare conclude deliver_get request_is_range_request transform_headers_curl
      with_user_agent
  get curl r c =
      let headers = with_user_agent r in
      let lines = transform_headers_curl headers r.params in
      let c' =
        prepare (λ n. record n { get_count = n.get_count + 1 })
          (request_is_range_request headers r.params) r c in
      conclude (λ e. e) (codes "GET") (deliver_get r) curl r (set_easy (get_options r lines) c')

  unfoldable pub put : Curl → Request → Client → Option Ran
  unfolding prepare conclude request_is_range_request transform_headers_curl with_user_agent
  put curl r c =
      let headers = with_user_agent r in
      let lines = transform_headers_curl headers r.params in
      let c' =
        prepare
          (λ n. record n {
            put_count = n.put_count + 1;
            total_bytes_sent = n.total_bytes_sent + length r.buffer_in;
          })
          (request_is_range_request headers r.params) r c in
      conclude restore_put (codes "PUT") (λ answer ran. ran) curl r
        (set_easy (put_options r lines) c')

  unfoldable pub head : Curl → Request → Client → Option Ran
  unfolding prepare conclude transform_headers_curl with_user_agent
  head curl r c =
      let headers = with_user_agent r in
      let lines = transform_headers_curl headers r.params in
      let c' = prepare (λ n. record n { head_count = n.head_count + 1 }) true r c in
      conclude restore_head (codes "HEAD") (λ answer ran. ran) curl r
        (set_easy (head_options r lines) c')

  unfoldable pub delete : Curl → Request → Client → Option Ran
  unfolding prepare conclude request_is_range_request transform_headers_curl with_user_agent
  delete curl r c =
      let headers = with_user_agent r in
      let lines = transform_headers_curl headers r.params in
      let c' =
        prepare (λ n. record n { delete_count = n.delete_count + 1 })
          (request_is_range_request headers r.params) r c in
      conclude restore_delete (codes "DELETE") (λ answer ran. ran) curl r
        (set_easy (delete_options r lines) c')

  unfoldable pub deliver_post : Answer → Ran → Ran
  deliver_post answer ran =
      let body = ran.after.info.body in
      record ran {
        buffer_out = body;
        after =
            counted (λ n. record n { total_bytes_received = n.total_bytes_received + length body })
              ran.after;
      }

  unfoldable pub post : Curl → Request → Client → Option Ran
  unfolding prepare conclude deliver_post request_is_range_request transform_headers_curl
      with_user_agent find_header
  post curl r c =
      let headers = with_user_agent r in
      let lines = transform_headers_curl headers r.params in
      let typed : List Text = elim (find_header util (codes "Content-Type") headers) [
        | none ↦ lines ++ octet_stream ∷ []
        | some v ↦ lines
      ] in
      let c' =
        prepare
          (λ n. record n {
            post_count = n.post_count + 1;
            total_bytes_sent = n.total_bytes_sent + length r.buffer_in;
          })
          (request_is_range_request headers r.params) r c in
      conclude restore_post (codes "POST") deliver_post curl r (set_easy (post_options r typed) c')
