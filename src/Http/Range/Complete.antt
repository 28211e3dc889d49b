-- ===== src/Http/Range/Complete.antt =====
-- A range request that is reported as a success has filled the buffer with the bytes that arrived.
use mathlib.Core.Path.{subst, subst₂}
use haybarn_httpfs.Base.{
  ℕ, ◌+◌, ◌%◌, ◌^◌, ◌≤◌, ◌<◌, ◌≡◌, refl, sym, ap, ◌∙◌, ◌≢◌, inl, inr, true, false, Option, none,
  some, List, [], ◌∷◌, ◌++◌, arith, ltb, leb, if◌then◌else◌, Bool-cases, length, length-append,
  take, splice, length-splice, take-splice, take-all, Text,
}
use haybarn_httpfs.Http.Types.{Exception, Response, Result, ok, throw, word, Result-cases}
use haybarn_httpfs.Http.Handle.{Session, HttpUtil}
use haybarn_httpfs.Http.Range.{
  Event, responded, data_arrived, Exchange, Transfer, settle, on_data, has_failed, judge,
  on_response, on_event, deliver, run_get_range_request,
}

-- The bytes of the last response that was not a redirect or an error, `acc` those so far.
unfoldable pub received : List ℕ → List Event → List ℕ
received acc [] = acc
received acc (responded r ∷ events) =
    received (if leb 400 r.status then acc else if ltb r.status 300 then [] else acc) events
received acc (data_arrived chunk ∷ events) = received (acc ++ chunk) events

-- No chunk is larger than an address space.
abbrev pub ChunksFit : List Event → Type 0
ChunksFit [] = Unit {0}
ChunksFit (responded r ∷ events) = ChunksFit events
ChunksFit (data_arrived chunk ∷ events) = (length chunk < 2 ^ 63) × ChunksFit events

ChunksFit-tail :
    (event : Event) (events : List Event) → ChunksFit (event ∷ events) → ChunksFit events
ChunksFit-tail (responded r) events fits = fits
ChunksFit-tail (data_arrived chunk) events fits = fits.1

-- The buffer holds `acc` and then what it held before, and is `n` bytes long.
pub record Filled (n : ℕ) (acc : List ℕ) (buffer : List ℕ) (t : Transfer) : Type 0 where
  pub is_out : t.out ≡ some buffer
  pub sized : length buffer ≡ n
  pub counted : t.out_offset ≡ length acc
  pub within : t.out_offset ≤ n
  pub front : take t.out_offset buffer ≡ acc

module _ (util : HttpUtil) (etag : Text) (n : ℕ) (small : n < 2 ^ 63) where
  on_response-out :
      (r : Response) (t : Transfer)
      → ((on_response util etag n r t).1.out ≡ t.out)
        × ((on_response util etag n r t).1.out_offset ≡ (
            if leb 400 r.status
            then t.out_offset
            else if ltb r.status 300
            then 0
            else t.out_offset))
  unfolding on_response
  on_response-out r t = ground arith

  on_response-Filled :
      (r : Response) (acc buffer : List ℕ) (t : Transfer)
      → Filled n acc buffer t
      → Filled n
          (if leb 400 r.status then acc else if ltb r.status 300 then [] else acc)
          buffer
          (on_response util etag n r t).1
  on_response-Filled r acc buffer t v = record {
    is_out = (on_response-out r t).0 ∙ v.is_out;
    sized = v.sized;
    counted = ground (arith, on_response-out r t);
    within = ground (arith, on_response-out r t);
    front = ground (arith, on_response-out r t);
  }

  on_data-Filled :
      (chunk acc buffer : List ℕ) (t : Transfer)
      → length chunk < 2 ^ 63
      → (on_data n chunk t).0 ≡ ok tt
      → Filled n acc buffer t
      → Filled n (acc ++ chunk) (splice t.out_offset chunk buffer) (on_data n chunk t).1
  unfolding on_data
  on_data-Filled chunk acc buffer t fits went v =
      let small_enough : ltb n ((length chunk + t.out_offset) % word) ≡ false =
        ground (arith, v.is_out) in
      let sum : (t.out_offset + length chunk) % word ≡ t.out_offset + length chunk =
        omega (arith, v.within) in
      record {
        is_out = ground (arith, v.is_out, small_enough);
        sized = length-splice t.out_offset chunk buffer ∙ v.sized;
        counted = ground (arith, v.is_out, small_enough, sum, v.counted, length-append acc chunk);
        within = ground (arith, v.is_out, small_enough, sum, v.within);
        front =
            take-splice _ t.out_offset chunk buffer (ground (arith, v.is_out, small_enough, sum))
              (ground (arith, v.is_out, small_enough, sum, v.sized))
            ∙ ap (λ l. l ++ chunk) v.front;
      }

  on_event-Filled :
      (event : Event) (events : List Event) (acc buffer : List ℕ) (t : Transfer)
      → ChunksFit (event ∷ events)
      → (on_event util etag n event t).0 ≡ ok tt
      → Filled n acc buffer t
      → (acc' : List ℕ) × (b : List ℕ) × (received acc (event ∷ events) ≡ received acc' events)
        × Filled n acc' b (on_event util etag n event t).1
  unfolding on_event received
  on_event-Filled (responded r) events acc buffer t fits went v =
      (_, buffer, refl, on_response-Filled r acc buffer t v)
  on_event-Filled (data_arrived chunk) events acc buffer t fits went v =
      (acc ++ chunk, _, refl, on_data-Filled chunk acc buffer t fits.0 went v)

  deliver-ok :
      (event : Event) (events : List Event) (t : Transfer) {x : Unit {0}}
      → (on_event util etag n event t).0 ≡ ok x
      → deliver util etag n (event ∷ events) t
        ≡ deliver util etag n events (on_event util etag n event t).1
  unfolding deliver
  deliver-ok event events t e = ground arith

  deliver-throw :
      (event : Event) (events : List Event) (t : Transfer) {x : Exception}
      → (on_event util etag n event t).0 ≡ throw x
      → (deliver util etag n (event ∷ events) t).0 ≡ throw x
  unfolding deliver
  deliver-throw event events t e = ground arith

  deliver-Filled :
      (events : List Event) (acc buffer : List ℕ) (t : Transfer)
      → ChunksFit events
      → (deliver util etag n events t).0 ≡ ok tt
      → Filled n acc buffer t
      → (b : List ℕ) × Filled n (received acc events) b (deliver util etag n events t).1
  unfolding received
  deliver-Filled [] acc buffer t fits went v = (buffer, unfold deliver in v)
  deliver-Filled (event ∷ events) acc buffer t fits went v =
      elim (Result-cases (on_event util etag n event t).0) [
        | inl (_, e) ↦
            let (acc', b, same, w) = on_event-Filled event events acc buffer t fits e v in
            let step = deliver-ok event events t e in
            let (b', x) =
              deliver-Filled events acc' b (on_event util etag n event t).1
                (ChunksFit-tail event events fits) (ap (λ o. o.0) (sym step) ∙ went) w in
            (b', subst₂ (λ l o. Filled n l b' o.1) (sym same) (sym step) x)
        | inr (x, e) ↦ cc (deliver-throw event events t e)
      ]

judge-some :
    (get_error : Response → Session → Exception × Session) (n : ℕ) (response : Option Response)
    (t : Transfer) (r : Response)
    → (judge get_error n response t).0 ≡ ok (some r)
    → (response ≡ some r) × ((judge get_error n response t).1 ≡ t)
unfolding judge
judge-some get_error n none t r went = cc
judge-some get_error n (some q) t r went = elim (Bool-cases (has_failed q)) [
  | inl e ↦ absurd (ground (arith, e))
  | inr e ↦ ground (arith, e)
]

judge-full :
    (get_error : Response → Session → Exception × Session) (n : ℕ) (t : Transfer) (r : Response)
    (b : List ℕ)
    → (judge get_error n (some r) t).0 ≡ ok (some r)
    → r.request_error ≡ none
    → r.success ≡ true
    → t.out ≡ some b
    → t.out_offset ≡ n
unfolding judge
judge-full get_error n t r b went no_error success out = elim (Bool-cases (has_failed r)) [
  | inl e ↦ absurd (ground (arith, e))
  | inr e ↦ ground (arith, e)
]

-- What HTTPUtil::Request promises: after a callback threw it throws too, or hands back a response
-- with a request error or none at all.
pub record ReportsThrows (exchange : Exchange) : Type 0 where
  pub reports :
      (e : Exception) (r : Response) → exchange.on_throw e ≡ ok (some r) → r.request_error ≢ none

module _ (util : HttpUtil) (get_error : Response → Session → Exception × Session) (etag : Text)
    (n : ℕ) (exchange : Exchange) (buffer : List ℕ) (s : Session) where
  abbrev start : Transfer
  start = record { out = some buffer; out_offset = 0; session = s }

  abbrev delivered : Result (Unit {0}) × Transfer
  delivered = deliver util etag n exchange.events start

  run-judge :
      {response : Option Response}
      → settle exchange delivered.0 ≡ ok response
      → run_get_range_request util get_error etag n exchange (some buffer) s
        ≡ judge get_error n response delivered.1
  unfolding run_get_range_request
  run-judge e = ground arith

  run-throw :
      {x : Exception}
      → settle exchange delivered.0 ≡ throw x
      → (run_get_range_request util get_error etag n exchange (some buffer) s).0 ≡ throw x
  unfolding run_get_range_request
  run-throw e = ground arith

  -- Nothing was thrown, and the response was judged as it came.
  run-some :
      {r : Response}
      → ReportsThrows exchange
      → (run_get_range_request util get_error etag n exchange (some buffer) s).0 ≡ ok (some r)
      → r.request_error ≡ none
      → (delivered.0 ≡ ok tt)
        × ((judge get_error n (some r) delivered.1).0 ≡ ok (some r))
        × ((run_get_range_request util get_error etag n exchange (some buffer) s).1 ≡ delivered.1)
  unfolding settle
  run-some {r} reports went no_error = elim (Result-cases (settle exchange delivered.0)) [
    | inr (x, e) ↦ cc (run-throw e)
    | inl (response, e) ↦
        let step = run-judge e in
        let judged : (judge get_error n response delivered.1).0 ≡ ok (some r) =
          ap (λ o. o.0) (sym step) ∙ went in
        let (same, kept) = judge-some get_error n response delivered.1 r judged in
        elim (Result-cases delivered.0) [
          | inl (_, d) ↦ (
            d,
            subst (λ o. (judge get_error n o delivered.1).0 ≡ ok (some r)) same judged,
            ap (λ o. o.1) step ∙ kept,
          )
          | inr (x, d) ↦ absurd (reports.reports x r (ground (arith, d)) no_error)
        ]
  ]

-- The response that is handed back is the one that HTTPUtil returned.
pub run_get_range_request-response :
    (util : HttpUtil) (get_error : Response → Session → Exception × Session) (etag : Text) (n : ℕ)
    (exchange : Exchange) (buffer : List ℕ) (s : Session) (r : Response)
    → ReportsThrows exchange
    → (run_get_range_request util get_error etag n exchange (some buffer) s).0 ≡ ok (some r)
    → r.request_error ≡ none
    → exchange.response ≡ some r
unfolding settle
run_get_range_request-response util get_error etag n exchange buffer s r reports went no_error =
    let (d, _, _) = run-some util get_error etag n exchange buffer s reports went no_error in
    let settled : settle exchange (delivered util get_error etag n exchange buffer s).0
        ≡ ok exchange.response =
      ap (settle exchange) d in
    let step = run-judge util get_error etag n exchange buffer s settled in
    (judge-some get_error n exchange.response _ r (ap (λ o. o.0) (sym step) ∙ went)).0

-- A range request into a buffer of the requested size that returns a successful response has filled
-- the buffer: it holds exactly the bytes that arrived for the last response, and every byte was
-- written. HTTPUtil reports what the callbacks throw, and sizes are below 2^63.
pub run_get_range_request_complete :
    (util : HttpUtil) (get_error : Response → Session → Exception × Session) (etag : Text) (n : ℕ)
    (exchange : Exchange) (buffer : List ℕ) (s : Session) (r : Response)
    → n < 2 ^ 63
    → length buffer ≡ n
    → ChunksFit exchange.events
    → ReportsThrows exchange
    → (run_get_range_request util get_error etag n exchange (some buffer) s).0 ≡ ok (some r)
    → r.request_error ≡ none
    → r.success ≡ true
    → ((run_get_range_request util get_error etag n exchange (some buffer) s).1.out
        ≡ some (received [] exchange.events))
      × (length (received [] exchange.events) ≡ n)
run_get_range_request_complete util get_error etag n exchange buffer s r small sized fits reports
      went no_error success =
    let (d, judged, kept) =
      run-some util get_error etag n exchange buffer s reports went no_error in
    let begin : Filled n [] buffer (start util get_error etag n exchange buffer s) = record {
      is_out = refl;
      sized = sized;
      counted = refl;
      within = omega arith;
      front = refl;
    } in
    let (b, v) = deliver-Filled util etag n small exchange.events [] buffer _ fits d begin in
    let full = judge-full get_error n _ r b judged no_error success v.is_out in
    let whole : b ≡ received [] exchange.events =
      sym (take-all _ b (omega (arith, v.sized, full))) ∙ v.front in
    (ap (λ o. o.out) kept ∙ v.is_out ∙ ap some whole, omega (arith, full, v.counted))
