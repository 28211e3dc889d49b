-- ===== src/S3/Remove/Removes.antt =====
-- The keys that the requests of RemoveFiles delete.
use mathlib.Core.List.{append_assoc, append-nil}
use haybarn_httpfs.Base.{
  ℕ, zero, suc, ◌≤◌, ◌≡◌, refl, sym, ap, ◌∙◌, ◌≢◌, inl, inr, Bool, true, false, ◌&&◌, List, [], ◌∷◌,
  ◌++◌, arith, leb, if◌then◌else◌, Bool-cases, length, get_or, take, drop, take-append-drop,
  length-take, Text, text_eq, lookup,
}
use haybarn_httpfs.Http.Types.{Exception, Result, ok, throw, Result-cases}
use haybarn_httpfs.S3.Auth.{S3AuthParams}
use haybarn_httpfs.S3.Remove.{
  DeleteBatches, DeleteRequest, RemoveUtil, Removal, max_keys_per_request, xml_body, group_paths,
  send_delete, judge_answer, send_batch, send_batches, remove_files,
}
use haybarn_httpfs.S3.Remove.Groups.{keys_in, keys_of, keys_in-group_paths}
use haybarn_httpfs.S3.Remove.Bodies.{named_keys, all_plain, named_keys-xml_body}
use haybarn_httpfs.S3.Remove.Sent.{send_delete-body}

abbrev if_batch : Text → Text → List Text → List Text
if_batch k batch_key keys = if text_eq k batch_key then keys else []

-- The keys that the accepted requests of a batch name.
abbrev pub accepted_keys : Text → List (Text × DeleteRequest) → List Text
accepted_keys batch_key [] = []
accepted_keys batch_key ((k, request) ∷ log) =
    if_batch k batch_key (named_keys request.body) ++ accepted_keys batch_key log

-- Every request of a batch names at most 1000 keys.
abbrev pub all_short : Text → List (Text × DeleteRequest) → Bool
all_short batch_key [] = true
all_short batch_key ((k, request) ∷ log) =
    leb (length (if_batch k batch_key (named_keys request.body))) max_keys_per_request
    && all_short batch_key log

accepted_keys-append :
    (batch_key : Text) (a b : List (Text × DeleteRequest))
    → accepted_keys batch_key (a ++ b) ≡ accepted_keys batch_key a ++ accepted_keys batch_key b
accepted_keys-append batch_key [] b = refl
accepted_keys-append batch_key ((k, request) ∷ a) b =
    ap (λ l. if_batch k batch_key (named_keys request.body) ++ l)
      (accepted_keys-append batch_key a b)
    ∙ sym (append_assoc (if_batch k batch_key (named_keys request.body)) _ _)

all_short-append :
    (batch_key : Text) (a b : List (Text × DeleteRequest))
    → all_short batch_key (a ++ b) ≡ all_short batch_key a && all_short batch_key b
all_short-append batch_key [] b = refl
all_short-append batch_key ((k, request) ∷ a) b = ground (arith, all_short-append batch_key a b)

if_batch-append :
    (k batch_key : Text) (a b : List Text)
    → if_batch k batch_key a ++ if_batch k batch_key b ≡ if_batch k batch_key (a ++ b)
if_batch-append k batch_key a b = elim (Bool-cases (text_eq k batch_key)) [
  | inl e ↦ rw e refl
  | inr e ↦ rw e refl
]

if_batch-nil : (k batch_key : Text) → if_batch k batch_key [] ≡ []
if_batch-nil k batch_key = ground arith

all_plain-append : (a b : List Text) → all_plain (a ++ b) ≡ all_plain a && all_plain b
all_plain-append [] b = refl
all_plain-append (key ∷ a) b = ground (arith, all_plain-append a b)

-- Plain keys of a batch that are sent in two parts.
if_batch-plain :
    (k batch_key : Text) (a b : List Text)
    → all_plain (if_batch k batch_key (a ++ b)) ≡ true
    → (all_plain (if_batch k batch_key a) ≡ true) × (all_plain (if_batch k batch_key b) ≡ true)
if_batch-plain k batch_key a b h = elim (Bool-cases (text_eq k batch_key)) [
  | inl e ↦
      rw e (ground (arith, e, h, all_plain-append a b), ground (arith, e, h, all_plain-append a b))
  | inr e ↦ rw e (refl, refl)
]

-- What a request with the body of these keys names.
if_batch-named :
    (k batch_key : Text) (keys : List Text) (body : Text)
    → body ≡ xml_body keys
    → all_plain (if_batch k batch_key keys) ≡ true
    → if_batch k batch_key (named_keys body) ≡ if_batch k batch_key keys
if_batch-named k batch_key keys body same plain_keys = elim (Bool-cases (text_eq k batch_key)) [
  | inl e ↦ rw e (ap named_keys same ∙ named_keys-xml_body keys (ground (arith, e, plain_keys)))
  | inr e ↦ rw e refl
]

accepted_keys-step :
    (k batch_key : Text) (log : List (Text × DeleteRequest)) (request : DeleteRequest)
    (a b : List Text)
    → if_batch k batch_key (named_keys request.body) ≡ if_batch k batch_key a
    → accepted_keys batch_key (log ++ (k, request) ∷ []) ++ if_batch k batch_key b
      ≡ accepted_keys batch_key log ++ if_batch k batch_key (a ++ b)
accepted_keys-step k batch_key log request a b named =
    ap (λ l. l ++ if_batch k batch_key b)
      (accepted_keys-append batch_key log ((k, request) ∷ [])
        ∙ ap (λ l. accepted_keys batch_key log ++ l) (append-nil _ ∙ named))
    ∙ append_assoc (accepted_keys batch_key log) (if_batch k batch_key a) _
    ∙ ap (λ l. accepted_keys batch_key log ++ l) (if_batch-append k batch_key a b)

length-if_batch :
    (k batch_key : Text) (keys : List Text) (n : ℕ)
    → length (if_batch k batch_key (take n keys)) ≤ n
length-if_batch k batch_key keys n = ground (arith, length-take n keys)

all_short-step :
    (k batch_key : Text) (log : List (Text × DeleteRequest)) (request : DeleteRequest)
    (keys : List Text) (n : ℕ)
    → n ≡ max_keys_per_request
    → if_batch k batch_key (named_keys request.body) ≡ if_batch k batch_key (take n keys)
    → all_short batch_key log ≡ true
    → all_short batch_key (log ++ (k, request) ∷ []) ≡ true
all_short-step k batch_key log request keys n e named h =
    let few = ap length named in
    ground (
      arith,
      all_short-append batch_key log ((k, request) ∷ []),
      length-if_batch k batch_key keys n,
    )

throw_ok : {x : Exception} → throw x ≢ ok (tt {0})
throw_ok e = ground (arith, e)

-- What the requests of one batch add to the log, when its keys are plain.
record Accepts (k : Text) (keys : List Text) (before after : Removal) : Type 0 where
  all_keys :
      (batch_key : Text)
      → all_plain (if_batch k batch_key keys) ≡ true
      → accepted_keys batch_key after.accepted
        ≡ accepted_keys batch_key before.accepted ++ if_batch k batch_key keys
  short :
      (batch_key : Text)
      → all_plain (if_batch k batch_key keys) ≡ true
      → all_short batch_key before.accepted ≡ true
      → all_short batch_key after.accepted ≡ true

module _ (util : RemoveUtil) where
  send_batch-Accepts :
      (fuel : ℕ) (k : Text) (keys paths : List Text) (p : S3AuthParams) (before after : Removal)
      → send_batch util fuel k keys paths p before ≡ (ok tt, after)
      → Accepts k keys before after
  unfolding send_batch
  send_batch-Accepts fuel k [] paths p before after e =
      let same : before ≡ after = ap (λ x. x.1) e in
      record {
        all_keys = λ batch_key plain_keys.
            ap (λ r. accepted_keys batch_key r.accepted) (sym same)
            ∙ sym (append-nil _)
            ∙ ap (λ l. accepted_keys batch_key before.accepted ++ l)
                (sym (if_batch-nil k batch_key));
        short = λ batch_key plain_keys h. ap (λ r. all_short batch_key r.accepted) (sym same) ∙ h;
      }
  send_batch-Accepts zero k (key ∷ keys) paths p before after e =
      absurd (throw_ok (ap (λ x. x.0) e))
  send_batch-Accepts (suc fuel) k (key ∷ keys) paths p before after e =
      let all = key ∷ keys in
      let sent_keys = take max_keys_per_request all in
      let rest = drop max_keys_per_request all in
      let sent =
        send_delete util 2 false (get_or paths 0 []) (xml_body sent_keys) p before.requests in
      let told : DeleteRequest → Removal =
        λ request. record { accepted = before.accepted ++ (k, request) ∷ []; requests = sent.2 } in
      let go : Result DeleteRequest → Result (Unit {0}) × Removal = λ m. elim m [
        | throw x ↦ (throw x, record before { requests = sent.2 })
        | ok request ↦
            send_batch util fuel k rest (drop max_keys_per_request paths) sent.1 (told request)
      ] in
      elim (Result-cases (judge_answer util sent.0)) [
        | inr (x, judged) ↦ absurd (throw_ok (ap (λ y. y.0) (sym (ap go judged) ∙ e)))
        | inl (request, judged) ↦
            let later =
              send_batch-Accepts fuel k rest (drop max_keys_per_request paths) sent.1 (told request)
                after (sym (ap go judged) ∙ e) in
            let parts = take-append-drop max_keys_per_request all in
            let split = λ (batch_key : Text) (h : all_plain (if_batch k batch_key all) ≡ true).
              if_batch-plain k batch_key sent_keys rest
                (ap (λ l. all_plain (if_batch k batch_key l)) parts ∙ h) in
            let named = λ (batch_key : Text) (h : all_plain (if_batch k batch_key all) ≡ true).
              if_batch-named k batch_key sent_keys request.body
                (send_delete-body util 2 false (get_or paths 0 []) (xml_body sent_keys) p
                  before.requests request judged)
                (split batch_key h).0 in
            record {
              all_keys = λ batch_key h.
                  later.all_keys batch_key (split batch_key h).1
                  ∙ accepted_keys-step k batch_key before.accepted request sent_keys rest
                      (named batch_key h)
                  ∙ ap (λ l. accepted_keys batch_key before.accepted ++ if_batch k batch_key l)
                      parts;
              short = λ batch_key h short_before. later.short batch_key (split batch_key h).1 (
                  all_short-step k batch_key before.accepted request all max_keys_per_request refl
                    (named batch_key h) short_before);
            }
      ]

-- The keys of the batches that bear a batch key.
abbrev pub labelled_keys : Text → DeleteBatches → List Text
labelled_keys batch_key [] = []
labelled_keys batch_key ((k, batch) ∷ batches) =
    if_batch k batch_key batch.keys ++ labelled_keys batch_key batches

module _ (util : RemoveUtil) where
  pub send_batches-accepted :
      (batches : DeleteBatches) (before after : Removal) (batch_key : Text)
      → send_batches util batches before ≡ (ok tt, after)
      → all_plain (labelled_keys batch_key batches) ≡ true
      → (accepted_keys batch_key after.accepted
          ≡ accepted_keys batch_key before.accepted ++ labelled_keys batch_key batches)
        × (all_short batch_key before.accepted ≡ true → all_short batch_key after.accepted ≡ true)
  unfolding send_batches
  send_batches-accepted [] before after batch_key e h =
      let same : before ≡ after = ap (λ x. x.1) e in
      (
        ap (λ r. accepted_keys batch_key r.accepted) (sym same) ∙ sym (append-nil _),
        λ short. ap (λ r. all_short batch_key r.accepted) (sym same) ∙ short,
      )
  send_batches-accepted ((k, batch) ∷ batches) before after batch_key e h =
      let sent =
        send_batch util (length batch.keys) k batch.keys batch.secret_lookup_paths
          batch.url_info.auth_params before in
      let go : Result (Unit {0}) → Result (Unit {0}) × Removal =
        λ m. elim m [ throw x ↦ (throw x, sent.1) | ok _ ↦ send_batches util batches sent.1 ] in
      let here = if_batch k batch_key batch.keys in
      let both = all_plain-append here (labelled_keys batch_key batches) in
      let plain_here : all_plain here ≡ true = ground (arith, both, h) in
      let plain_later : all_plain (labelled_keys batch_key batches) ≡ true =
        ground (arith, both, h) in
      elim (Result-cases sent.0) [
        | inr (x, failed) ↦ absurd (throw_ok (ap (λ y. y.0) (sym (ap go failed) ∙ e)))
        | inl (_, went) ↦
            let first =
              send_batch-Accepts util (length batch.keys) k batch.keys batch.secret_lookup_paths
                batch.url_info.auth_params before sent.1 (ap (λ m. (m, sent.1)) went) in
            let (keys, short) =
              send_batches-accepted batches sent.1 after batch_key (sym (ap go went) ∙ e)
                plain_later in
            (
              keys
                  ∙ ap (λ l. l ++ labelled_keys batch_key batches)
                      (first.all_keys batch_key plain_here)
                  ∙ append_assoc (accepted_keys batch_key before.accepted) here _,
              λ s. short (first.short batch_key plain_here s),
            )
      ]

  -- The traversal meets the batch of each batch key once.
  abbrev pub Traverses : Type 0
  Traverses =
      (batch_key : Text) (batches : DeleteBatches)
      → labelled_keys batch_key (util.traverse batches) ≡ keys_in batch_key batches

  -- When RemoveFiles returns without an exception, the bodies of the requests of a batch that the
  -- server accepted name exactly the keys of the paths with that batch key, each as often as it is
  -- given and in the order of the paths, and at most 1000 in each request. The keys hold neither '<'
  -- nor '&', and the traversal of the map meets the batch of each batch key once. This holds whatever
  -- is refreshed in between.
  pub remove_files-deletes :
      (paths : List Text) (after : Removal)
      → Traverses
      → remove_files util paths ≡ (ok tt, after)
      → (batch_key : Text) → all_plain (keys_of util batch_key paths) ≡ true
      → (accepted_keys batch_key after.accepted ≡ keys_of util batch_key paths)
        × (all_short batch_key after.accepted ≡ true)
  unfolding remove_files lookup
  remove_files-deletes paths after traverses e batch_key plain_keys =
      let none_yet : Removal = record { accepted = []; requests = 0 } in
      let go : Result DeleteBatches → Result (Unit {0}) × Removal = λ m. elim m [
        | throw x ↦ (throw x, none_yet)
        | ok batches ↦ send_batches util (util.traverse batches) none_yet
      ] in
      elim (Result-cases (group_paths util paths [])) [
        | inr (x, failed) ↦ absurd (throw_ok (ap (λ y. y.0) (sym (ap go failed) ∙ e)))
        | inl (batches, grouped) ↦
            let labelled : labelled_keys batch_key (util.traverse batches)
                ≡ keys_of util batch_key paths =
              traverses batch_key batches
              ∙ keys_in-group_paths util batch_key paths [] batches grouped in
            let (keys, short) =
              send_batches-accepted (util.traverse batches) none_yet after batch_key
                (sym (ap go grouped) ∙ e) (ap all_plain labelled ∙ plain_keys) in
            (keys ∙ labelled, short refl)
      ]
