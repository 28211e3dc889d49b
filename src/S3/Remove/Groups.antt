-- ===== src/S3/Remove/Groups.antt =====
-- The keys that RemoveFiles puts into each batch.
use mathlib.Core.List.{append_assoc, append-nil}
use haybarn_httpfs.Base.{
  ◌≡◌, sym, ap, ◌∙◌, inl, inr, Option, none, some, List, [], ◌∷◌, ◌++◌, arith, if◌then◌else◌,
  Bool-cases, Text, text_eq, text_eq_sound, lookup, lookup-insert,
}
use haybarn_httpfs.Http.Types.{Result, ok, throw, ◌>>=◌, Result-cases}
use haybarn_httpfs.S3.DeleteBatch.{S3DeleteBatchUrlInfo}
use haybarn_httpfs.S3.Remove.{
  S3DeleteBatch, DeleteBatches, RemoveUtil, batch_of, add_to_batch, Located, locate, group_paths,
}

abbrev keys_of_batch : Option S3DeleteBatch → List Text
keys_of_batch none = []
keys_of_batch (some batch) = batch.keys

-- The keys in the batch of a batch key.
abbrev pub keys_in : Text → DeleteBatches → List Text
keys_in batch_key batches = keys_of_batch (lookup batch_key batches)

ok_of : {a b : DeleteBatches} → ok a ≡ ok b → a ≡ b
ok_of {a = a} e = ap (λ r. elim r [ ok x ↦ x | throw t ↦ a ]) e

module _ (util : RemoveUtil) where
  abbrev key_if : Text → Result Located → List Text
  key_if batch_key (throw e) = []
  key_if batch_key (ok l) = if text_eq l.batch_key batch_key then l.key ∷ [] else []

  -- The keys of the paths that belong to a batch, in the order of the paths.
  abbrev pub keys_of : Text → List Text → List Text
  keys_of batch_key [] = []
  keys_of batch_key (path ∷ paths) = key_if batch_key (locate util path) ++ keys_of batch_key paths

  batch_of-keys :
      (batch_key : Text) (batches : DeleteBatches) (url_info : S3DeleteBatchUrlInfo)
      → (batch_of batch_key batches url_info).keys ≡ keys_in batch_key batches
  batch_of-keys batch_key batches url_info = ground arith

  abbrev told_batch : Located → Text → DeleteBatches → S3DeleteBatch
  told_batch l path batches =
      let batch = batch_of l.batch_key batches l.url_info in
      record batch {
        keys = batch.keys ++ l.key ∷ [];
        secret_lookup_paths = batch.secret_lookup_paths ++ path ∷ [];
      }

  keys_in-add_to_batch :
      (batch_key : Text) (l : Located) (path : Text) (batches : DeleteBatches)
      → keys_in batch_key (add_to_batch l.batch_key l.url_info l.key path batches)
        ≡ keys_in batch_key batches ++ key_if batch_key (ok l)
  unfolding add_to_batch
  keys_in-add_to_batch batch_key l path batches =
      let told = told_batch l path batches in
      ap keys_of_batch (lookup-insert l.batch_key batch_key told batches)
      ∙ elim (Bool-cases (text_eq l.batch_key batch_key)) [
        | inl e ↦ rw e (
            ap (λ m. m ++ l.key ∷ [])
              (batch_of-keys l.batch_key batches l.url_info
                ∙ ap (λ k. keys_in k batches) (text_eq_sound l.batch_key batch_key e)))
        | inr e ↦ rw e (sym (append-nil (keys_in batch_key batches)))
      ]

  pub keys_in-group_paths :
      (batch_key : Text) (paths : List Text) (batches grouped : DeleteBatches)
      → group_paths util paths batches ≡ ok grouped
      → keys_in batch_key grouped ≡ keys_in batch_key batches ++ keys_of batch_key paths
  unfolding group_paths
  keys_in-group_paths batch_key [] batches grouped e =
      ap (keys_in batch_key) (sym (ok_of e)) ∙ sym (append-nil _)
  keys_in-group_paths batch_key (path ∷ paths) batches grouped e =
      elim (Result-cases (locate util path)) [
        | inr (x, le) ↦ absurd (ground (arith, le, e))
        | inl (l, le) ↦
            let batches' = add_to_batch l.batch_key l.url_info l.key path batches in
            let e' : group_paths util paths batches' ≡ ok grouped =
              ap
                (λ r. r >>= λ m.
                  group_paths util paths (add_to_batch m.batch_key m.url_info m.key path batches))
                (sym le)
              ∙ e in
            rw le (
              keys_in-group_paths batch_key paths batches' grouped e'
              ∙ ap (λ m. m ++ keys_of batch_key paths)
                  (keys_in-add_to_batch batch_key l path batches)
              ∙ append_assoc (keys_in batch_key batches) (key_if batch_key (ok l)) _)
      ]
