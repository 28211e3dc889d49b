-- ===== src/Curl/Client/Sequences.antt =====
-- The options over a sequence of requests.
use mathlib.Core.Path.{subst}
use mathlib.Core.List.{append-nil}
use haybarn_httpfs.Base.{
  ◌+◌, ◌≡◌, refl, sym, ap, ◌∙◌, inl, inr, true, false, Option, none, some, List, [], ◌∷◌, ◌++◌,
  arith, if◌then◌else◌, Bool-cases, length, Text, codes,
}
use haybarn_httpfs.Curl.Headers.{CurlUtil, find_header, identity}
use haybarn_httpfs.Curl.Options.{
  Easy, Client, Request, Curl, Ran, octet_stream, set_post_fields, set_target, get_options,
  put_options, head_options, delete_options, post_options, restore_put, restore_head,
  restore_delete, restore_post,
}
use haybarn_httpfs.Curl.Client.{
  request_is_range_request, transform_headers_curl, with_user_agent, deliver_get, get, put, head,
  delete, deliver_post, post,
}
use haybarn_httpfs.Curl.Client.Calls.{
  Method, getting, putting, heading, deleting, posting, Call, Carried, carried, IsIdle, Collects,
  method_text, carried_on, send, run, expected,
}
use haybarn_httpfs.Curl.Client.Idles.{Ends, KeepsOptions, request-Ends}

module _ (util : CurlUtil) where
  pub deliver_get-KeepsOptions : (r : Request) → KeepsOptions util (deliver_get util r)
  unfolding deliver_get
  deliver_get-KeepsOptions r answer ran = (ground arith, ground arith)

  deliver_post-KeepsOptions : KeepsOptions util (deliver_post util)
  unfolding deliver_post
  deliver_post-KeepsOptions answer ran = (ground arith, ground arith)

  -- A request of an idle client: it returns, with the options that its method describes, and leaves
  -- the client idle, with what the method carries on.
  pub record Runs (m : Method) (r : Request) (kept : Carried) (result : Option Ran) : Type 0 where
    pub ran : Ran
    pub returned : result ≡ some ran
    pub as_expected : ran.executed ≡ expected util m r kept
    pub stays_idle : IsIdle ran.after.easy
    pub carries : carried ran.after.easy ≡ carried_on m kept

  typed-content_type :
      (found : Option Text) (lines : List Text)
      → (elim found as (λ f. List Text) [ none ↦ lines ++ octet_stream ∷ [] | some v ↦ lines ])
        ≡ lines ++ (elim found as (λ f. List Text) [ none ↦ octet_stream ∷ [] | some v ↦ [] ])
  typed-content_type none lines = refl
  typed-content_type (some v) lines = sym (append-nil lines)

  posted-cancellation :
      (r : Request) (lines : List Text) (e : Easy)
      → (post_options r lines e).cancellation ≡ e.cancellation
  posted-cancellation r lines e = ground arith

  -- A POST request sets the same options whether it is sent as a GET request or not, but for the text of
  -- its method.
  posted :
      (r : Request) (lines : List Text) (e : Easy)
      → e.no_body ≡ false
      → e.custom_request ≡ none
      → post_options r lines e
        ≡ record (set_post_fields (some r.buffer_in) (length r.buffer_in) (set_target r lines e)) {
          no_body = false;
          custom_request = method_text posting r;
        }
  posted r lines e shown untitled = elim (Bool-cases r.send_post_as_get_request) [
    | inl b ↦ simp (b, shown) refl
    | inr b ↦ simp (b, untitled) refl
  ]

  -- The restored options of each method.
  abbrev restore : Method → Easy → Easy
  restore getting e = e
  restore putting e = restore_put e
  restore heading e = restore_head e
  restore deleting e = restore_delete e
  restore posting e = restore_post e

  restore-IsIdle :
      (m : Method) (r : Request) (kept : Carried)
      → IsIdle (restore m (expected util m r kept))
        × (carried (restore m (expected util m r kept)) ≡ carried_on m kept)
  restore-IsIdle getting r kept =
      (record { no_body = refl; custom_request = refl; post_fields = refl }, refl)
  restore-IsIdle putting r kept =
      (record { no_body = refl; custom_request = refl; post_fields = refl }, refl)
  restore-IsIdle heading r kept =
      (record { no_body = refl; custom_request = refl; post_fields = refl }, refl)
  restore-IsIdle deleting r kept =
      (record { no_body = refl; custom_request = refl; post_fields = refl }, refl)
  restore-IsIdle posting r kept =
      (record { no_body = refl; custom_request = refl; post_fields = refl }, refl)

  runs :
      (m : Method) (r : Request) (kept : Carried) {executed : Easy} {result : Option Ran}
      → Ends util (restore m) executed result
      → executed ≡ expected util m r kept
      → Runs m r kept result
  runs m r kept ends e =
      let left = ends.restored ∙ ap (restore m) e in
      let (idle, on) = restore-IsIdle m r kept in
      record {
        ran = ends.ran;
        returned = ends.returned;
        as_expected = ends.executed_with ∙ e;
        stays_idle = subst IsIdle (sym left) idle;
        carries = ap carried left ∙ on;
      }

  send-Runs :
      (m : Method) (curl : Curl) (r : Request) (c : Client)
      → IsIdle c.easy
      → Collects util curl
      → Runs m r (carried c.easy) (send util m curl r c)
  unfolding get put head delete post
  send-Runs getting curl r c i collects =
      let headers = with_user_agent util r in
      let lines = transform_headers_curl util headers r.params in
      let ends =
        request-Ends util (λ e. e) (get_options r lines)
          (λ n. record n { get_count = n.get_count + 1 })
          (request_is_range_request util headers r.params) (codes "GET") (deliver_get util r) curl r
          c (λ e. refl) (deliver_get-KeepsOptions r) collects in
      runs getting r (carried c.easy) ends (simp (i.custom_request, i.post_fields, append-nil) refl)
  send-Runs putting curl r c i collects =
      let headers = with_user_agent util r in
      let lines = transform_headers_curl util headers r.params in
      let ends =
        request-Ends util restore_put (put_options r lines)
          (λ n. record n {
            put_count = n.put_count + 1;
            total_bytes_sent = n.total_bytes_sent + length r.buffer_in;
          })
          (request_is_range_request util headers r.params) (codes "PUT") (λ answer ran. ran) curl r
          c (λ e. refl) (λ answer ran. (refl, refl)) collects in
      runs putting r (carried c.easy) ends (simp (i.no_body) refl)
  send-Runs heading curl r c i collects =
      let headers = with_user_agent util r in
      let lines = transform_headers_curl util headers r.params in
      let ends =
        request-Ends util restore_head (head_options r lines)
          (λ n. record n { head_count = n.head_count + 1 }) true (codes "HEAD") (λ answer ran. ran)
          curl r c (λ e. refl) (λ answer ran. (refl, refl)) collects in
      runs heading r (carried c.easy) ends (simp (i.custom_request, i.post_fields, append-nil) refl)
  send-Runs deleting curl r c i collects =
      let headers = with_user_agent util r in
      let lines = transform_headers_curl util headers r.params in
      let ends =
        request-Ends util restore_delete (delete_options r lines)
          (λ n. record n { delete_count = n.delete_count + 1 })
          (request_is_range_request util headers r.params) (codes "DELETE") (λ answer ran. ran) curl
          r c (λ e. refl) (λ answer ran. (refl, refl)) collects in
      runs deleting r (carried c.easy) ends (simp (i.no_body, i.post_fields, append-nil) refl)
  send-Runs posting curl r c i collects =
      let headers = with_user_agent util r in
      let lines = transform_headers_curl util headers r.params in
      let found = find_header util (codes "Content-Type") headers in
      let typed : List Text = elim found [ none ↦ lines ++ octet_stream ∷ [] | some v ↦ lines ] in
      let ends =
        request-Ends util restore_post (post_options r typed)
          (λ n. record n {
            post_count = n.post_count + 1;
            total_bytes_sent = n.total_bytes_sent + length r.buffer_in;
          })
          (request_is_range_request util headers r.params) (codes "POST") (deliver_post util) curl r
          c (posted-cancellation r typed) deliver_post-KeepsOptions collects in
      let encoding : Text =
        if request_is_range_request util headers r.params then identity else [] in
      let prepared : Easy = record c.easy {
        accept_encoding = some encoding;
        cancellation = none;
      } in
      let arm : Easy → Easy = λ e. record e { cancellation = r.cancellation } in
      runs posting r (carried c.easy) ends (
        ap arm (posted r typed prepared i.no_body i.custom_request)
        ∙ simp (typed-content_type found lines) refl)

  -- The calls of a sequence, none of whose header lines make the callback throw.
  abbrev pub AllCollect : List Call → Type 0
  AllCollect [] = Unit
  AllCollect (call ∷ calls) = Collects util call.curl × AllCollect calls

  abbrev pub expected_options : List Call → Carried → List Easy
  expected_options [] kept = []
  expected_options (call ∷ calls) kept =
      expected util call.method call.request kept
      ∷ expected_options calls (carried_on call.method kept)

  abbrev pub all_carried_on : List Call → Carried → Carried
  all_carried_on [] kept = kept
  all_carried_on (call ∷ calls) kept = all_carried_on calls (carried_on call.method kept)

  -- What a sequence of requests comes to, for a handle that carries `kept` on.
  pub record Returns (calls : List Call) (kept : Carried) (result : Option (List Easy × Client))
      : Type 0 where
    pub after : Client
    pub returned : result ≡ some (expected_options calls kept, after)
    pub stays_idle : IsIdle after.easy
    pub carries : carried after.easy ≡ all_carried_on calls kept

  -- Any sequence of requests of an idle client, none of whose header lines make the callback throw,
  -- returns, whatever the transfers answer, and each transfer is made with the options that its own
  -- request describes: the cancellation flag is that of the request or none, the encoding is identity
  -- for a HEAD or a range request and any otherwise, the method, the body and the headers are those of
  -- the request, and libcurl is in the mode for its kind of request, but for a DELETE, which is made in
  -- the mode that is carried on to it: that of a POST when the last request but for DELETEs was a PUT,
  -- that of a GET when it was another. The size of the body is set by a PUT and a POST to that of their
  -- body, and is 0 after one until the next. The client is idle again afterwards.
  pub run-Returns :
      (calls : List Call) (c : Client)
      → IsIdle c.easy
      → AllCollect calls
      → Returns calls (carried c.easy) (run util calls c)
  unfolding run
  run-Returns [] c i collect = record { after = c; returned = refl; stays_idle = i; carries = refl }
  run-Returns (call ∷ calls) c i (collects, collect) =
      let first = send-Runs call.method call.curl call.request c i collects in
      let kept = carried_on call.method (carried c.easy) in
      let rest : Returns calls kept (run util calls first.ran.after) =
        subst (λ k. Returns calls k (run util calls first.ran.after)) first.carries
          (run-Returns calls first.ran.after first.stays_idle collect) in
      record {
        after = rest.after;
        returned =
            ap
              (λ m. elim m [
                | none ↦ none
                | some ran ↦ elim (run util calls ran.after) [
                  | none ↦ none
                  | some (trace, c') ↦ some (ran.executed ∷ trace, c')
                ]
              ])
              first.returned
            ∙ ap
                (λ m. elim m [
                  | none ↦ none
                  | some (trace, c') ↦ some (first.ran.executed ∷ trace, c')
                ])
                rest.returned
            ∙ ap (λ e. some (e ∷ expected_options calls kept, rest.after)) first.as_expected;
        stays_idle = rest.stays_idle;
        carries = rest.carries;
      }
