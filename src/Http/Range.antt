-- ===== src/Http/Range.antt =====
-- HTTPFileSystem::RunGetRangeRequest and GetRangeRequest (httpfs.cpp): one range request, with the
-- callbacks that see its response headers and its data. HTTPUtil may send it again, so the callbacks
-- can see several responses and then data of each.
pub mod Complete
pub mod Frame
pub mod Refused
pub mod Serves
pub mod Tests
use haybarn_httpfs.Base.{
  ℕ, ◌+◌, ◌-◌, ◌%◌, Bool, true, false, ◌&&◌, not, Option, none, some, List, [], ◌∷◌, ltb, leb, ◌==◌,
  if◌then◌else◌, length, splice, Text, codes, text_eq, is_empty, lookup, contains, stoull,
}
use haybarn_httpfs.Http.Types.{
  io, http, range_not_supported, etag_changed, more_data_than_expected, short_read, Exception,
  Response, Result, ok, throw, plain, word,
}
use haybarn_httpfs.Http.ClientCache.{get_client, store_client}
use haybarn_httpfs.Http.Handle.{FileHandle, Session, HttpUtil}
use haybarn_httpfs.Http.Preconditions.{
  strip_etag_quotes, add_handle_headers, erase_metadata, add_user_agent_if_available,
  add_consistency_preconditions, make_consistency_aware_error,
}

-- What HTTPUtil hands to the callbacks.
pub data Event : Type 0 where
  responded : Response → Event
  data_arrived : List ℕ → Event

-- One call of HTTPUtil::Request: what the callbacks are given, what it returns (`none` for a null
-- pointer) when no callback throws, what it does when one throws, and the client it leaves.
pub record Exchange : Type 0 where
  pub events : List Event
  pub response : Option Response
  pub on_throw : Exception → Result (Option Response)
  pub client : ℕ

-- A range request: the byte range of its Range header is kept as two numbers.
pub record RangeRequest : Type 0 where
  pub headers : List (Text × Text)
  pub first : ℕ
  pub last : ℕ
  pub try_request : Bool

-- The other end, by the number of the request and the client that sends it.
abbrev pub Server : Type 0
Server = ℕ → ℕ → RangeRequest → Exchange

-- What the callbacks change. `out` is the caller's buffer, `none` for a null pointer.
pub record Transfer : Type 0 where
  pub out : Option (List ℕ)
  pub out_offset : ℕ
  pub session : Session

abbrev etag_header : Text
etag_header = codes "ETag"

abbrev version_header : Text
version_header = codes "x-amz-version-id"

abbrev length_header : Text
length_header = codes "Content-Length"

abbrev get_header : Text → Response → Text
get_header name r = elim (lookup name r.headers) [ none ↦ [] | some v ↦ v ]

-- What HTTPUtil::Request does after the callbacks.
unfoldable pub settle : Exchange → Result (Unit {0}) → Result (Option Response)
settle exchange (ok _) = ok exchange.response
settle exchange (throw e) = exchange.on_throw e

unfoldable pub pin_version : Response → Session → Session
pin_version r s =
    if s.handle.http_params.s3_version_id_pinning
      && (contains version_header r.headers && is_empty s.handle.version_id)
    then record s { handle = record s.handle { version_id = get_header version_header r } }
    else s

unfoldable pub check_content_length : Response → ℕ → Result (Unit {0})
check_content_length r buffer_out_len = elim (lookup length_header r.headers) [
  | none ↦ ok tt
  | some text ↦ elim (stoull text) [
    | none ↦ ok tt
    | some n ↦ if n == buffer_out_len then ok tt else throw (plain http range_not_supported)
  ]
]

-- The data callback.
unfoldable pub on_data : ℕ → List ℕ → Transfer → Result (Unit {0}) × Transfer
on_data buffer_out_len chunk t = elim t.out [
  | none ↦ (ok tt, t)
  | some buffer ↦
      if ltb buffer_out_len ((length chunk + t.out_offset) % word)
      then (throw (plain http more_data_than_expected), t)
      else (
        ok tt,
        record t {
          out = some (splice t.out_offset chunk buffer);
          out_offset = (t.out_offset + length chunk) % word;
        },
      )
]

abbrev pub has_failed : Response → Bool
has_failed r = elim r.request_error [ none ↦ leb 400 r.status | some _ ↦ false ]

abbrev pub has_succeeded : Response → Bool
has_succeeded r = elim r.request_error [ none ↦ r.success | some _ ↦ false ]

-- What RunGetRangeRequest makes of the response. `get_error` may change the session.
unfoldable pub judge :
    (Response → Session → Exception × Session)
    → ℕ
    → Option Response
    → Transfer
    → Result (Option Response) × Transfer
judge get_error buffer_out_len none t = (ok none, t)
judge get_error buffer_out_len (some r) t =
    if has_failed r
    then (let (e, s) = get_error r t.session in (throw e, record t { session = s }))
    else if has_succeeded r
        && (not (t.out_offset == buffer_out_len) && elim t.out [ none ↦ false | some _ ↦ true ])
    then (throw (plain io short_read), t)
    else (ok (some r), t)

unfoldable pub return_client : ℕ → Session → Session
return_client client s = record s {
  handle = record s.handle { client_cache = store_client client s.handle.client_cache };
}

module _ (util : HttpUtil) where
  -- The ETag of the response against the one that was seen when the file was opened.
  unfoldable pub check_etag : Text → Response → Session → Result (Unit {0}) × Session
  check_etag etag r s =
      if not s.handle.http_params.unsafe_disable_etag_checks
        && (not (is_empty etag)
            && (contains etag_header r.headers
                && (not (is_empty (get_header etag_header r))
                    && not (
                        text_eq (strip_etag_quotes (get_header etag_header r))
                          (strip_etag_quotes etag)))))
      then (throw (util.http_exception etag_changed r), erase_metadata s.handle.path s)
      else (ok tt, s)

  -- The response callback.
  unfoldable pub on_response : Text → ℕ → Response → Transfer → Result (Unit {0}) × Transfer
  unfolding check_etag pin_version check_content_length
  on_response etag buffer_out_len r t =
      if leb 400 r.status
      then (ok tt, t)
      else if ltb r.status 300
      then (let (checked, s) = check_etag etag r t.session in
          elim checked [
            | throw e ↦ (throw e, record t { out_offset = 0; session = s })
            | ok _ ↦ (
              check_content_length r buffer_out_len,
              record t { out_offset = 0; session = pin_version r s },
            )
          ])
      else (ok tt, t)

  unfoldable pub on_event : Text → ℕ → Event → Transfer → Result (Unit {0}) × Transfer
  on_event etag n (responded r) t = on_response etag n r t
  on_event etag n (data_arrived chunk) t = on_data n chunk t

  -- The callbacks run until one throws.
  unfoldable pub deliver : Text → ℕ → List Event → Transfer → Result (Unit {0}) × Transfer
  deliver etag n [] t = (ok tt, t)
  deliver etag n (event ∷ events) t =
      let (went, t') = on_event etag n event t in
      elim went [ throw e ↦ (throw e, t') | ok _ ↦ deliver etag n events t' ]

  unfoldable pub run_get_range_request :
      (Response → Session → Exception × Session)
      → Text
      → ℕ
      → Exchange
      → Option (List ℕ)
      → Session
      → Result (Option Response) × Transfer
  unfolding deliver judge settle
  run_get_range_request get_error etag buffer_out_len exchange out s =
      let (went, t) =
        deliver etag buffer_out_len exchange.events
          (record { out = out; out_offset = 0; session = s }) in
      elim (settle exchange went) [
        | throw e ↦ (throw e, t)
        | ok response ↦ judge get_error buffer_out_len response t
      ]

  -- HTTPFileHandle::GetClient: an idle client, or a new one.
  unfoldable pub take_client : Session → ℕ × Session
  take_client s =
      let (found, cache) = get_client s.handle.client_cache in
      elim found [
        | none ↦ (util.create_client s, s)
        | some client ↦ (client, record s { handle = record s.handle { client_cache = cache } })
      ]

  -- The request that is sent, whether it carries a precondition, and the handle with its
  -- parameters after the headers were merged.
  unfoldable pub prepare_range_request : ℕ → ℕ → FileHandle → RangeRequest × Bool × FileHandle
  unfolding add_user_agent_if_available add_handle_headers add_consistency_preconditions
  prepare_range_request file_offset buffer_out_len h =
      let (headers, params) =
        add_handle_headers h.http_params (add_user_agent_if_available util h.http_params []) in
      let h' : FileHandle = record h { http_params = params } in
      let (headers', sent_precondition) = add_consistency_preconditions util h' headers in
      (
        record {
          headers = headers';
          first = file_offset;
          last = (file_offset + buffer_out_len + word - 1) % word;
          try_request = h.auto_fallback_to_full_file_download;
        },
        sent_precondition,
        h',
      )

  -- HTTPFileSystem::GetRangeRequest. `get_http_error` is the virtual GetHTTPError. A client is given
  -- back only where the request does not throw.
  unfoldable pub get_range_request :
      (Response → Exception)
      → Server
      → ℕ
      → Option (List ℕ)
      → ℕ
      → Session
      → Result (Option Response) × Transfer
  unfolding run_get_range_request take_client return_client prepare_range_request
      make_consistency_aware_error
  get_range_request get_http_error server file_offset out buffer_out_len s =
      let (request, sent_precondition, h) =
        prepare_range_request file_offset buffer_out_len s.handle in
      let (client, s') = take_client (record s { handle = h }) in
      let exchange = server s.requests client request in
      let (result, t) =
        run_get_range_request
          (make_consistency_aware_error util get_http_error sent_precondition h.path) h.etag
          buffer_out_len exchange out (record s' { requests = s.requests + 1 }) in
      elim result [
        | throw e ↦ (throw e, t)
        | ok response ↦
            (ok response, record t { session = return_client exchange.client t.session })
      ]
