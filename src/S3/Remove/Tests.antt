-- ===== src/S3/Remove/Tests.antt =====
-- Three objects of two buckets, the first request of which is sent again after a refresh.
use mathlib.Core.List.{append-nil}
use haybarn_httpfs.Base.{
  ℕ, ◌≡◌, refl, ap, ◌∙◌, inl, inr, Bool, true, false, none, some, List, [], ◌∷◌, ◌++◌, arith, ◌==◌,
  if◌then◌else◌, Bool-cases, Text, codes, text_eq, text_eq_sound, text_eq_iff, lookup,
}
use haybarn_httpfs.Base
use haybarn_httpfs.Http.Types.{Response, ok}
use haybarn_httpfs.S3.Auth.{default_auth_params}
use haybarn_httpfs.S3.Remove.{DeleteBatches, RemoveUtil, Removal, group_paths, remove_files}
use haybarn_httpfs.S3.Remove.Removes.{
  accepted_keys, all_short, labelled_keys, Traverses, remove_files-deletes,
}

-- Each entry once, without a later one under the same key.
abbrev each_once : DeleteBatches → DeleteBatches
each_once [] = []
each_once ((k, batch) ∷ batches) = (k, batch) ∷ Base.erase k (each_once batches)

abbrev answer_to : ℕ → Response
answer_to n = record {
  status = if n == 0 then 403 else 200;
  headers = [];
  body = [];
  success = true;
  request_error = none;
}

abbrev util : RemoveUtil
util = record {
  url_util = record { lower = λ t. t; url_encode = λ t. t };
  read_from = λ path. record default_auth_params { endpoint = codes "s3.amazonaws.com" };
  batch_key = λ u path. u.host;
  parse_query = λ query. [];
  traverse = each_once;
  post = λ n request. ok (some (answer_to n));
  refresh = λ n path p. some (record p { session_token = codes "t" });
}

-- Two cases of an erasure: the entry goes, or it stays.
dropped :
    (keys later : List Text) (erased same : Bool)
    → same ≡ erased
    → (if erased then [] else later) ≡ (if erased then [] else (if same then keys else []) ++ later)
dropped keys later true same e = refl
dropped keys later false true e = absurd (ground (arith, e))
dropped keys later false false e = refl

stayed :
    (keys later : List Text) (erased same : Bool)
    → (erased ≡ true → same ≡ true → true ≡ false)
    → (if same then keys else []) ++ (if erased then [] else later)
      ≡ (if erased then [] else (if same then keys else []) ++ later)
stayed keys later true true apart = absurd (ground (arith, apart refl refl))
stayed keys later true false apart = refl
stayed keys later false same apart = refl

labelled_keys-erase :
    (k batch_key : Text) (batches : DeleteBatches)
    → labelled_keys batch_key (Base.erase k batches)
      ≡ (if text_eq k batch_key then [] else labelled_keys batch_key batches)
unfolding Base.erase
labelled_keys-erase k batch_key [] = ground arith
labelled_keys-erase k batch_key ((j, batch) ∷ batches) = elim (Bool-cases (text_eq j k)) [
  | inl e ↦
      let same : text_eq j batch_key ≡ text_eq k batch_key =
        ap (λ l. text_eq l batch_key) (text_eq_sound j k e) in
      rw (e, labelled_keys-erase k batch_key batches)
        (dropped _ _ (text_eq k batch_key) (text_eq j batch_key) same)
  | inr e ↦
      rw (e, labelled_keys-erase k batch_key batches)
        (stayed _ _ (text_eq k batch_key) (text_eq j batch_key) (λ a b.
          ground
            (arith, a, b, e, text_eq_iff k batch_key, text_eq_iff j batch_key, text_eq_iff j k)))
]

util-Traverses : Traverses util
unfolding lookup
util-Traverses batch_key [] = refl
util-Traverses batch_key ((k, batch) ∷ batches) =
    ap (λ l. (if text_eq k batch_key then batch.keys else []) ++ l)
      (labelled_keys-erase k batch_key (each_once batches))
    ∙ elim (Bool-cases (text_eq k batch_key)) [
      | inl e ↦ rw e (append-nil batch.keys)
      | inr e ↦ rw e (util-Traverses batch_key batches)
    ]

abbrev paths : List Text
paths = codes "s3://b/k1" ∷ codes "s3://c/k2" ∷ codes "s3://b/k3" ∷ []

abbrev after : Removal
after = (remove_files util paths).1

remove_files-deletes_example :
    (accepted_keys (codes "b.s3.amazonaws.com") after.accepted ≡ codes "k1" ∷ codes "k3" ∷ [])
    × (all_short (codes "b.s3.amazonaws.com") after.accepted ≡ true)
unfolding remove_files group_paths Base.insert Base.is_free_of
remove_files-deletes_example =
    remove_files-deletes util paths after util-Traverses refl (codes "b.s3.amazonaws.com") refl
