-- ===== src/Curl/Headers/Tests.antt =====
-- Responses of a server, one of them compressed.
use haybarn_httpfs.Base.{
  ℕ, ◌+◌, ◌≡◌, refl, ap, inl, inr, true, false, ◌&&◌, none, some, List, [], ◌∷◌, ◌++◌, map, arith,
  leb, if◌then◌else◌, Bool-cases, Text, codes, text_eq, text_eq_sound, starts_with, find_first,
  to_string, is_free_of, or_else, or_else-none,
}
use haybarn_httpfs.Curl.Headers.{
  Headers, CurlUtil, without_last, trim_line, last_headers, find_header, add_header,
  request_header_callback, collect_lines, RequestInfo, content_encoding, body_was_decoded,
  transform_response_curl,
}
use haybarn_httpfs.Curl.Headers.Printed.{
  line_end, Block, print_blocks, headers_of, collect_lines-print_blocks,
}
use haybarn_httpfs.Curl.Headers.Decoded.{IsHttpHeaders, transform_response_curl-header}

abbrev lower_code : ℕ → ℕ
lower_code c = if leb 65 c && leb c 90 then c + 32 else c

abbrev lower_text : Text → Text
lower_text s = map lower_code s

abbrev insert_new : Text → Text → Headers → Headers
insert_new k v [] = (k, v) ∷ []
insert_new k v ((i, w) ∷ h) =
    let behind = insert_new k v h in
    (i, w) ∷ (if text_eq (lower_text i) (lower_text k) then h else behind)

abbrev util : CurlUtil
util = record {
  lower = lower_text;
  insert_header = insert_new;
  status_message = λ status. to_string status;
  strerror = λ res. to_string res;
}

abbrev redirected : List Block
redirected =
    record {
      status_line = codes "HTTP/1.1 302 Found";
      fields = (codes "Location", codes "/g") ∷ [];
    }
    ∷ record {
      status_line = codes "HTTP/1.1 200 OK";
      fields = (codes "ETag", codes "v1") ∷ (codes "X-Empty", []) ∷ [];
    }
    ∷ []

collect_lines-print_blocks_example :
    collect_lines util (print_blocks redirected) [] ≡ some (map (headers_of util) redirected)
unfolding is_free_of starts_with
collect_lines-print_blocks_example = collect_lines-print_blocks util redirected [] refl

-- A value that is missing altogether, without a space behind the colon, is not read.
no_value : request_header_callback util (codes "X-Empty:" ++ line_end) ([] ∷ []) ≡ none
unfolding request_header_callback trim_line without_last add_header starts_with find_first
no_value = refl

find_header-insert_new :
    (name k v : Text) (h : Headers)
    → find_header util name (insert_new k v h)
      ≡ or_else
          (find_header util name h)
          (if text_eq (lower_text k) (lower_text name) then some v else none)
unfolding find_header
find_header-insert_new name k v [] = ground arith
find_header-insert_new name k v ((i, w) ∷ h) =
    let same = λ (e : text_eq (lower_text i) (lower_text k) ≡ true).
      ap (λ l. text_eq l (lower_text name)) (text_eq_sound (lower_text i) (lower_text k) e) in
    elim (Bool-cases (text_eq (lower_text i) (lower_text k))) [
      | inl e ↦ rw e (ground (arith, same e, or_else-none (find_header util name h)))
      | inr e ↦ rw e (ground (arith, find_header-insert_new name k v h))
    ]

util-IsHttpHeaders : IsHttpHeaders util
util-IsHttpHeaders = record { lower_content_length = refl; inserts = find_header-insert_new }

abbrev wire : Headers
wire = (codes "content-length", codes "2") ∷ (codes "content-encoding", codes "gzip") ∷ []

abbrev info : RequestInfo
info = record {
  url = codes "https://h/f";
  body = codes "abcdef";
  response_code = 200;
  header_collection = wire ∷ [];
  sent_identity_only = false;
}

transform_response_curl-header_example :
    find_header util (codes "Content-Length") (transform_response_curl util 0 info).headers
    ≡ some (codes "6")
unfolding body_was_decoded content_encoding last_headers find_header text_eq to_string
transform_response_curl-header_example =
    transform_response_curl-header util util-IsHttpHeaders (codes "Content-Length") refl info wire
      refl
