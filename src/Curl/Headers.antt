-- ===== src/Curl/Headers.antt =====
-- What libcurl hands to the client (httpfs_curl_client.cpp): RequestHeaderCallback,
-- TransformResponseCurl and the check of Content-Encoding.
mod Printed
mod Decoded
mod Tests
use haybarn_httpfs.Base.{
  ℕ, ◌+◌, Bool, false, ◌&&◌, ◌||◌, not, Option, none, some, List, [], ◌∷◌, ◌++◌, ◌==◌,
  if◌then◌else◌, length, take, drop, Text, codes, text_eq, is_empty, starts_with, find_first,
  to_string,
}

abbrev pub Headers : Type 0
Headers = List (Text × Text)

-- DuckDB's part: StringUtil::Lower, HTTPHeaders::Insert and HTTPUtil::GetStatusMessage, and
-- curl_easy_strerror of libcurl.
pub record CurlUtil : Type 0 where
  pub lower : Text → Text
  pub insert_header : Text → Text → Headers → Headers
  pub status_message : ℕ → Text
  pub strerror : ℕ → Text

-- The text without its last character, where that is `c`.
unfoldable pub without_last : ℕ → Text → Option Text
without_last c [] = none
without_last c (d ∷ []) = if d == c then some [] else none
without_last c (d ∷ e ∷ s) = elim (without_last c (e ∷ s)) [ none ↦ none | some t ↦ some (d ∷ t) ]

unfoldable pub trim_line : Text → Text
unfolding without_last
trim_line header = elim (without_last b'\n' header) [
  | none ↦ header
  | some h ↦ elim (without_last b'\r' h) [ none ↦ h | some h' ↦ h' ]
]

-- header_collection.back().Insert(name, value). There is a `back` only when the list is not empty.
unfoldable pub insert_last : (Headers → Headers) → List Headers → Option (List Headers)
insert_last f [] = none
insert_last f (h ∷ []) = some (f h ∷ [])
insert_last f (h ∷ i ∷ rest) = elim (insert_last f (i ∷ rest)) [
  | none ↦ none
  | some t ↦ some (h ∷ t)
]

-- The value after a colon: at(0) throws where there is none.
abbrev pub header_value : Text → Option Text
header_value [] = none
header_value (c ∷ s) = if c == b' ' then some s else some (c ∷ s)

abbrev pub response_status : Text
response_status = codes "__RESPONSE_STATUS__"

-- The last headers of a response, as header_collection.back() gives them.
unfoldable pub last_headers : List Headers → Option Headers
last_headers [] = none
last_headers (h ∷ []) = some h
last_headers (h ∷ i ∷ rest) = last_headers (i ∷ rest)

module _ (util : CurlUtil) where
  -- HasHeader and GetHeaderValue of HTTPHeaders, a map that ignores case.
  unfoldable pub find_header : Text → Headers → Option Text
  find_header name [] = none
  find_header name ((k, v) ∷ headers) =
      if text_eq (util.lower k) (util.lower name) then some v else find_header name headers

  -- What RequestHeaderCallback does with a line, once it is trimmed. `none` is an exception that
  -- leaves the callback, or a header before any status line, which has no place to go.
  unfoldable pub add_header : Text → List Headers → Option (List Headers)
  unfolding insert_last
  add_header header collection =
      let collection' =
        if starts_with header (codes "HTTP/")
        then collection ++ util.insert_header response_status header [] ∷ []
        else collection in
      elim (find_first header (codes ":")) [
        | none ↦ some collection'
        | some colon_pos ↦ elim (header_value (drop (colon_pos + 1) header)) [
          | none ↦ none
          | some value ↦
              insert_last (util.insert_header (util.lower (take colon_pos header)) value)
                collection'
        ]
      ]

  unfoldable pub request_header_callback : Text → List Headers → Option (List Headers)
  unfolding trim_line add_header
  request_header_callback line collection = add_header (trim_line line) collection

  unfoldable pub collect_lines : List Text → List Headers → Option (List Headers)
  unfolding request_header_callback
  collect_lines [] collection = some collection
  collect_lines (line ∷ lines) collection = elim (request_header_callback line collection) [
    | none ↦ none
    | some collection' ↦ collect_lines lines collection'
  ]

-- HTTPResponse as this client fills it. Status 0 is HTTPStatusCode::INVALID.
pub record CurlResponse : Type 0 where
  pub status : ℕ
  pub url : Text
  pub reason : Text
  pub body : Text
  pub headers : Headers
  pub request_error : Text
  pub cancelled : Bool

abbrev pub new_response : ℕ → CurlResponse
new_response status = record {
  status = status;
  url = [];
  reason = [];
  body = [];
  headers = [];
  request_error = [];
  cancelled = false;
}

pub record RequestInfo : Type 0 where
  pub url : Text
  pub body : Text
  pub response_code : ℕ
  pub header_collection : List Headers
  pub sent_identity_only : Bool

abbrev pub identity : Text
identity = codes "identity"

module _ (util : CurlUtil) where
  -- The Content-Encoding of the last headers.
  unfoldable pub content_encoding : RequestInfo → Option Text
  unfolding last_headers find_header
  content_encoding info = elim (last_headers info.header_collection) [
    | none ↦ none
    | some wire_headers ↦ find_header util (codes "Content-Encoding") wire_headers
  ]

  abbrev pub encoding_violation : Text → Text
  encoding_violation value =
      codes "Server returned Content-Encoding '"
      ++ value
      ++ codes "' but we requested identity; refusing to deliver non-identity-encoded bytes."

  unfoldable pub reject_if_content_encoding_violation : RequestInfo → Option CurlResponse
  unfolding content_encoding
  reject_if_content_encoding_violation info =
      if not info.sent_identity_only then none else elim (content_encoding info) [
        | none ↦ none
        | some value ↦
            if text_eq (util.lower value) identity
            then none
            else some (record (new_response 0) {
              request_error = encoding_violation value;
              url = info.url;
            })
      ]

  unfoldable pub body_was_decoded : RequestInfo → Bool
  unfolding content_encoding
  body_was_decoded info = elim (content_encoding info) [
    | none ↦ false
    | some value ↦ let ce = util.lower value in not (is_empty ce) && not (text_eq ce identity)
  ]

  -- A header that is not copied to the response.
  unfoldable pub is_left_out : Bool → Text → Bool
  is_left_out decoded name =
      text_eq name response_status
      || decoded
        && (text_eq (util.lower name) (codes "content-length")
            || text_eq (util.lower name) (codes "content-encoding"))

  unfoldable pub copy_headers : Bool → Headers → Headers → Headers
  unfolding is_left_out
  copy_headers decoded [] headers = headers
  copy_headers decoded ((k, v) ∷ wire) headers =
      copy_headers decoded wire
        (if is_left_out decoded k then headers else util.insert_header k v headers)

  unfoldable pub response_headers : RequestInfo → Headers
  unfolding body_was_decoded copy_headers
  response_headers info =
      let decoded = body_was_decoded info in
      let copied : Headers = elim (last_headers info.header_collection) [
        | none ↦ []
        | some wire_headers ↦ copy_headers decoded wire_headers []
      ] in
      if decoded
      then util.insert_header (codes "Content-Length") (to_string (length info.body)) copied
      else copied

  -- TransformResponseCurl. Code 0 is CURLE_OK.
  unfoldable pub transform_response_curl : ℕ → RequestInfo → CurlResponse
  unfolding response_headers
  transform_response_curl res info =
      if not (res == 0)
      then record (new_response info.response_code) { request_error = util.strerror res }
      else record (new_response info.response_code) {
        body = info.body;
        url = info.url;
        reason = util.status_message info.response_code;
        headers = response_headers info;
      }
