-- ===== src/Curl/Headers/Decoded.antt =====
-- The headers that a response has after libcurl decoded its body.
use mathlib.Core.Path.{ap₂}
use haybarn_httpfs.Base.{
  ◌≡◌, refl, sym, ap, ◌∙◌, inl, inr, Bool, true, false, ◌&&◌, ◌||◌, Option, none, some, [], ◌∷◌,
  arith, if◌then◌else◌, Bool-cases, length, Text, codes, text_eq, text_eq_refl, text_eq_sound,
  to_string, or_else,
}
use haybarn_httpfs.Curl.Headers.{
  Headers, CurlUtil, response_status, last_headers, find_header, RequestInfo, body_was_decoded,
  is_left_out, copy_headers, response_headers, transform_response_curl,
}

-- The map of HTTPHeaders keeps what is there, like std::unordered_map::insert, and compares names
-- in lower case.
pub record IsHttpHeaders (util : CurlUtil) : Type 0 where
  pub lower_content_length : util.lower (codes "Content-Length") ≡ codes "content-length"
  pub inserts :
      (name k v : Text) (h : Headers)
      → find_header util name (util.insert_header k v h)
        ≡ or_else
            (find_header util name h)
            (if text_eq (util.lower k) (util.lower name) then some v else none)

-- The inserted length where the copied headers have none.
length-step :
    (is_length is_encoding : Bool) (found : Option Text) (total : Text)
    → or_else
        (if is_length || is_encoding then none else found)
        (if is_length then some total else none)
      ≡ (if is_length then some total else if is_encoding then none else found)
length-step is_length is_encoding none total = ground arith
length-step is_length is_encoding (some v) total = ground arith

text_eq_comm : (s t : Text) → text_eq s t ≡ text_eq t s
unfolding text_eq
text_eq_comm [] [] = refl
text_eq_comm [] (d ∷ t) = refl
text_eq_comm (c ∷ s) [] = refl
text_eq_comm (c ∷ s) (d ∷ t) = ground (arith, text_eq_comm s t)

or_else-step :
    (left_out hidden same : Bool) (before behind : Option Text) (v : Text)
    → (same ≡ true → left_out ≡ hidden)
    → or_else
        (if left_out then before else or_else before (if same then some v else none))
        (if hidden then none else behind)
      ≡ or_else before (if hidden then none else if same then some v else behind)
or_else-step left_out hidden same none behind v h = ground arith
or_else-step left_out hidden same (some b) behind v h = ground arith

module _ (util : CurlUtil) where
  -- A header that describes the body on the wire.
  abbrev pub describes_wire : Text → Bool
  describes_wire name =
      text_eq (util.lower name) (codes "content-length")
      || text_eq (util.lower name) (codes "content-encoding")

  is_left_out-same :
      (decoded : Bool) (k name : Text)
      → util.lower k ≡ util.lower name
      → text_eq (util.lower response_status) (util.lower name) ≡ false
      → is_left_out util decoded k ≡ decoded && describes_wire name
  unfolding is_left_out
  is_left_out-same decoded k name same not_status =
      let not_name : text_eq k response_status ≡ false =
        elim (Bool-cases (text_eq k response_status)) [
          | inl e ↦
              let as_status : util.lower name ≡ util.lower response_status =
                sym same ∙ ap util.lower (text_eq_sound k response_status e) in
              let equal : text_eq (util.lower response_status) (util.lower name) ≡ true =
                ap (text_eq (util.lower response_status)) as_status ∙ text_eq_refl _ in
              absurd (ground (arith, equal, not_status))
          | inr e ↦ e
        ] in
      rw (not_name, same) refl

  module _ (http : IsHttpHeaders util) (name : Text)
      (not_status : text_eq (util.lower response_status) (util.lower name) ≡ false) where
    find_header-if :
        (left_out : Bool) (k v : Text) (acc : Headers)
        → find_header util name (if left_out then acc else util.insert_header k v acc) ≡ (
            if left_out
            then find_header util name acc
            else or_else
                (find_header util name acc)
                (if text_eq (util.lower k) (util.lower name) then some v else none))
    find_header-if true k v acc = refl
    find_header-if false k v acc = http.inserts name k v acc

    find_header-copy_headers :
        (decoded : Bool) (wire acc : Headers)
        → find_header util name (copy_headers util decoded wire acc)
          ≡ or_else
              (find_header util name acc)
              (if decoded && describes_wire name then none else find_header util name wire)
    unfolding copy_headers find_header
    find_header-copy_headers decoded [] acc = ground arith
    find_header-copy_headers decoded ((k, v) ∷ wire) acc =
        find_header-copy_headers decoded wire _
        ∙ ap
            (λ x.
              or_else x
                (if decoded && describes_wire name then none else find_header util name wire))
            (find_header-if (is_left_out util decoded k) k v acc)
        ∙ or_else-step (is_left_out util decoded k) (decoded && describes_wire name)
            (text_eq (util.lower k) (util.lower name)) (find_header util name acc)
            (find_header util name wire) v
            (λ e. is_left_out-same decoded k name (text_eq_sound _ _ e) not_status)

    abbrev with_length : Bool → Text → Headers → Headers
    with_length decoded body h =
        if decoded
        then util.insert_header (codes "Content-Length") (to_string (length body)) h
        else h

    is_length :
        text_eq (util.lower (codes "Content-Length")) (util.lower name)
        ≡ text_eq (util.lower name) (codes "content-length")
    is_length = ap (λ l. text_eq l (util.lower name)) http.lower_content_length ∙ text_eq_comm _ _

    find_header-with_length :
        (decoded : Bool) (body : Text) (wire : Headers)
        → find_header util name (with_length decoded body (copy_headers util decoded wire [])) ≡ (
            if decoded && text_eq (util.lower name) (codes "content-length")
            then some (to_string (length body))
            else if decoded && text_eq (util.lower name) (codes "content-encoding")
            then none
            else find_header util name wire)
    unfolding find_header
    find_header-with_length false body wire = find_header-copy_headers false wire []
    find_header-with_length true body wire =
        http.inserts name (codes "Content-Length") (to_string (length body))
          (copy_headers util true wire [])
        ∙ ap₂ or_else (find_header-copy_headers true wire [])
            (ap (λ b. if b then some (to_string (length body)) else none) is_length)
        ∙ length-step (text_eq (util.lower name) (codes "content-length"))
            (text_eq (util.lower name) (codes "content-encoding")) (find_header util name wire)
            (to_string (length body))

    -- For a response that libcurl delivered with headers `wire`, and any name but that of the status
    -- line: where the body was decoded, the headers of the response give its length as the
    -- Content-Length and no Content-Encoding, and any other header has the value that it has on the
    -- wire. Where the body was not decoded, every header has the value that it has on the wire.
    pub transform_response_curl-header :
        (info : RequestInfo) (wire : Headers)
        → last_headers info.header_collection ≡ some wire
        → find_header util name (transform_response_curl util 0 info).headers ≡ (
            if body_was_decoded util info && text_eq (util.lower name) (codes "content-length")
            then some (to_string (length info.body))
            else if body_was_decoded util info
                && text_eq (util.lower name) (codes "content-encoding")
            then none
            else find_header util name wire)
    unfolding transform_response_curl response_headers
    transform_response_curl-header info wire e =
        ap
          (λ m. find_header util name (
            with_length (body_was_decoded util info) info.body (elim m [
              | none ↦ []
              | some w ↦ copy_headers util (body_was_decoded util info) w []
            ])))
          e
        ∙ find_header-with_length (body_was_decoded util info) info.body wire
