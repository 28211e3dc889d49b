-- ===== src/Curl/Client/Calls.antt =====
-- Sequences of requests of a client, and what the options of each transfer should be.
use haybarn_httpfs.Base.{
  ℕ, ◌≡◌, Bool, true, false, ◌||◌, Option, none, some, List, [], ◌∷◌, ◌++◌, if◌then◌else◌, length,
  Text, codes,
}
use haybarn_httpfs.Curl.Headers.{Headers, CurlUtil, find_header, collect_lines, identity}
use haybarn_httpfs.Curl.Options.{
  Mode, get_mode, head_mode, post_mode, Easy, Client, Request, Curl, Ran,
  normalize_path_to_be_added, octet_stream,
}
use haybarn_httpfs.Curl.Client.{
  request_is_range_request, transform_headers_curl, with_user_agent, get, put, head, delete, post,
}

pub data Method : Type 0 where
  getting putting heading deleting posting : Method

-- A request with what libcurl makes of it.
pub record Call : Type 0 where
  pub method : Method
  pub request : Request
  pub curl : Curl

-- What a handle keeps from one request to the next although a later request may not set it.
pub record Carried : Type 0 where
  pub mode : Mode
  pub post_field_size : Option ℕ

abbrev pub carried : Easy → Carried
carried e = record { mode = e.mode; post_field_size = e.post_field_size }

-- Nothing else of an earlier request is left that a later one does not set.
pub record IsIdle (e : Easy) : Type 0 where
  pub no_body : e.no_body ≡ false
  pub custom_request : e.custom_request ≡ none
  pub post_fields : e.post_fields ≡ none

-- No line makes the header callback throw, whatever the options.
abbrev pub Collects : CurlUtil → Curl → Type 0
Collects util curl =
    (easy : Easy)
    → (collection : List Headers) × (collect_lines util (curl easy).lines [] ≡ some collection)

-- What the method of a request says of its options.
abbrev pub method_text : Method → Request → Option Text
method_text getting r = none
method_text putting r = some (codes "PUT")
method_text heading r = none
method_text deleting r = some (codes "DELETE")
method_text posting r = if r.send_post_as_get_request then some (codes "GET") else none

abbrev pub body_of : Method → Request → Option Text
body_of getting r = none
body_of putting r = some r.buffer_in
body_of heading r = none
body_of deleting r = none
body_of posting r = some r.buffer_in

abbrev pub is_heading : Method → Bool
is_heading getting = false
is_heading putting = false
is_heading heading = true
is_heading deleting = false
is_heading posting = false

-- The mode of a transfer: a DELETE is made in the one that the handle is in.
abbrev pub mode_of : Method → Carried → Mode
mode_of getting kept = get_mode
mode_of putting kept = post_mode
mode_of heading kept = head_mode
mode_of deleting kept = kept.mode
mode_of posting kept = post_mode

abbrev pub size_of : Method → Request → Carried → Option ℕ
size_of getting r kept = kept.post_field_size
size_of putting r kept = some (length r.buffer_in)
size_of heading r kept = kept.post_field_size
size_of deleting r kept = kept.post_field_size
size_of posting r kept = some (length r.buffer_in)

-- What is carried on: a PUT leaves the handle in the mode of a POST, a POST in that of a GET.
abbrev pub carried_on : Method → Carried → Carried
carried_on getting kept = record kept { mode = get_mode }
carried_on putting kept = record { mode = post_mode; post_field_size = some 0 }
carried_on heading kept = record kept { mode = get_mode }
carried_on deleting kept = kept
carried_on posting kept = record { mode = get_mode; post_field_size = some 0 }

module _ (util : CurlUtil) where
  abbrev pub send : Method → Curl → Request → Client → Option Ran
  send getting = get util
  send putting = put util
  send heading = head util
  send deleting = delete util
  send posting = post util

  -- The options of the transfers, and the client after them.
  unfoldable pub run : List Call → Client → Option (List Easy × Client)
  run [] c = some ([], c)
  run (call ∷ calls) c = elim (send call.method call.curl call.request c) [
    | none ↦ none
    | some ran ↦ elim (run calls ran.after) [
      | none ↦ none
      | some (trace, c') ↦ some (ran.executed ∷ trace, c')
    ]
  ]

  abbrev pub content_type_lines : Method → Request → List Text
  content_type_lines getting r = []
  content_type_lines putting r = (codes "Content-Type: " ++ r.content_type) ∷ []
  content_type_lines heading r = []
  content_type_lines deleting r = []
  content_type_lines posting r =
      elim (find_header util (codes "Content-Type") (with_user_agent util r)) [
        | none ↦ octet_stream ∷ []
        | some v ↦ []
      ]

  -- The options that a request is made with, described by the request and by what is carried on.
  abbrev pub expected : Method → Request → Carried → Easy
  expected m r kept =
      let headers = with_user_agent util r in
      record {
        accept_encoding = some (
            if is_heading m || request_is_range_request util headers r.params
            then identity
            else []);
        mode = mode_of m kept;
        no_body = is_heading m;
        custom_request = method_text m r;
        post_fields = body_of m r;
        post_field_size = size_of m r kept;
        target = normalize_path_to_be_added r.path;
        http_headers = transform_headers_curl util headers r.params ++ content_type_lines m r;
        cancellation = r.cancellation;
      }
