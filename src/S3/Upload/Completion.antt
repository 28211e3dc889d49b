-- ===== src/S3/Upload/Completion.antt =====
-- The end of a multipart upload: FinalizeMultipartUpload and Finalize (s3_multi_part_upload.cpp).
use haybarn_httpfs.Base.{
  ℕ, zero, suc, ◌+◌, Bool, true, false, ◌&&◌, none, some, List, [], ◌++◌, ◌==◌, if◌then◌else◌, Text,
  codes, text_eq, find, lookup_number, to_string,
}
use haybarn_httpfs.Http.Types.{
  io, http, unknown_part, bad_finalization, Result, ok, throw, ◌>>=◌, plain,
}
use haybarn_httpfs.S3.Xml.{try_get_s3_error_code}
use haybarn_httpfs.S3.Upload.{S3MultiPartUpload, Posted}

-- The parts of the body of CompleteMultipartUpload: `parts` of them, from `i` on.
unfoldable pub parts_xml : ℕ → ℕ → List (ℕ × Text) → Result Text
parts_xml zero i part_etags = ok []
parts_xml (suc parts) i part_etags =
    let rest = parts_xml parts (i + 1) part_etags in
    elim (lookup_number i part_etags) [
      | none ↦ throw (plain io unknown_part)
      | some etag ↦ rest >>= λ xml. ok (
          codes "<Part><ETag>"
          ++ etag
          ++ codes "</ETag><PartNumber>"
          ++ to_string (i + 1)
          ++ codes "</PartNumber></Part>"
          ++ xml)
    ]

unfoldable pub completion_body : S3MultiPartUpload → Result Text
unfolding parts_xml
completion_body u = parts_xml u.parts_uploaded 0 u.part_etags >>= λ xml. ok (
    codes "<CompleteMultipartUpload xmlns=\"http://s3.amazonaws.com/doc/2006-03-01/\">"
    ++ xml
    ++ codes "</CompleteMultipartUpload>")

-- Whether an answer is an HTTP 200 with an embedded error that is sent again.
unfoldable pub is_embedded_internal_error : Posted → Bool
unfolding try_get_s3_error_code
is_embedded_internal_error p = (p.response.status == 200) && elim (try_get_s3_error_code p.result) [
  | none ↦ false
  | some code ↦ text_eq code (codes "InternalError")
]

unfoldable pub is_completed : Posted → Bool
unfolding find
is_completed p = elim (find p.result (codes "<CompleteMultipartUploadResult") 0) [
  | none ↦ false
  | some _ ↦ true
]

-- The loop of FinalizeMultipartUpload, by the retries that are left; `answers` by the number of the
-- request. Its result, and the number of the last request.
unfoldable pub complete : (ℕ → Result Posted) → ℕ → ℕ → Result (Unit {0}) × ℕ
unfolding is_completed is_embedded_internal_error
complete answers zero transient_retries = elim (answers transient_retries) [
  | throw e ↦ (throw e, transient_retries)
  | ok p ↦
      (if is_completed p then ok tt else throw (plain http bad_finalization), transient_retries)
]
complete answers (suc retries_left) transient_retries =
    let again = complete answers retries_left (transient_retries + 1) in
    elim (answers transient_retries) [
      | throw e ↦ (throw e, transient_retries)
      | ok p ↦
          if is_completed p
          then (ok tt, transient_retries)
          else if is_embedded_internal_error p
          then again
          else (throw (plain http bad_finalization), transient_retries)
    ]

-- FinalizeMultipartUpload; `answers` by the body of the request and its number.
unfoldable pub finalize_multipart_upload :
    (Text → ℕ → Result Posted) → ℕ → S3MultiPartUpload → Result (Unit {0}) × S3MultiPartUpload
unfolding completion_body complete
finalize_multipart_upload answers retries u =
    if u.upload_finalized
    then (ok tt, u)
    else (let u' = record u { upload_finalized = true } in
        elim (completion_body u') [
          | throw e ↦ (throw e, u')
          | ok body ↦ ((complete (answers body) retries 0).0, u')
        ])

-- Finalize; `flushed` is what FlushAllBuffers did.
unfoldable pub finalize :
    (Text → ℕ → Result Posted)
    → ℕ
    → (S3MultiPartUpload → Result (Unit {0}) × S3MultiPartUpload)
    → S3MultiPartUpload
    → Result (Unit {0}) × S3MultiPartUpload
unfolding finalize_multipart_upload
finalize answers retries flush_all u =
    if u.upload_finalized
    then (ok tt, u)
    else (let (flushed, u') = flush_all u in
        elim flushed [
          | throw e ↦ (throw e, u')
          | ok _ ↦
              if u'.parts_uploaded == 0
              then (ok tt, u')
              else finalize_multipart_upload answers retries u'
        ])
