-- ===== src/S3/Upload/Completes.antt =====
-- What ends a multipart upload.
use mathlib.Core.Path.{subst}
use haybarn_httpfs.Base.{
  ℕ, zero, suc, ◌+◌, ◌≤◌, ◌≡◌, refl, ap, ◌∙◌, true, false, some, List, [], ◌∷◌, ◌++◌, arith, length,
  Text, codes, lookup_number, to_string, count,
}
use haybarn_httpfs.Http.Types.{Result, ok}
use haybarn_httpfs.S3.Upload.{S3MultiPartUpload, Posted}
use haybarn_httpfs.S3.Upload.Completion.{
  parts_xml, completion_body, is_embedded_internal_error, is_completed, complete,
  finalize_multipart_upload,
}

-- The elements of the parts with these etags, numbered from `n` on.
unfoldable pub part_elements : ℕ → List Text → Text
part_elements n [] = []
part_elements n (etag ∷ etags) =
    codes "<Part><ETag>"
    ++ etag
    ++ codes "</ETag><PartNumber>"
    ++ to_string n
    ++ codes "</PartNumber></Part>"
    ++ part_elements (n + 1) etags

-- Etags that are known from part `i` on.
abbrev pub Known : List (ℕ × Text) → ℕ → List Text → Type 0
Known part_etags i [] = Unit {0}
Known part_etags i (etag ∷ etags) =
    (lookup_number i part_etags ≡ some etag) × Known part_etags (i + 1) etags

parts_xml-part_elements :
    (etags : List Text) (i : ℕ) (part_etags : List (ℕ × Text))
    → Known part_etags i etags
    → parts_xml (length etags) i part_etags ≡ ok (part_elements (i + 1) etags)
unfolding parts_xml part_elements
parts_xml-part_elements [] i part_etags known = refl
parts_xml-part_elements (etag ∷ etags) i part_etags (here, later) =
    rw (here, parts_xml-part_elements etags (i + 1) part_etags later, parts_xml) refl

-- When the etag of each uploaded part is known, the body of CompleteMultipartUpload lists the parts
-- in the order of their numbers, from 1 on, in whichever order the uploads ended.
completion_body-part_elements :
    (u : S3MultiPartUpload) (etags : List Text)
    → u.parts_uploaded ≡ length etags
    → Known u.part_etags 0 etags
    → completion_body u
      ≡ ok (
          codes "<CompleteMultipartUpload xmlns=\"http://s3.amazonaws.com/doc/2006-03-01/\">"
          ++ part_elements 1 etags
          ++ codes "</CompleteMultipartUpload>")
unfolding completion_body
completion_body-part_elements u etags count known =
    rw
      (
        ap (λ n. parts_xml n 0 u.part_etags) count
            ∙ parts_xml-part_elements etags 0 u.part_etags known,
        completion_body,
      )
      refl

-- Requests that are sent again, one after another from number `k` on.
abbrev pub AreRetried : (ℕ → Result Posted) → ℕ → ℕ → Type 0
AreRetried answers k zero = Unit {0}
AreRetried answers k (suc n) =
    ((p : Posted) × (answers k ≡ ok p)
      × (is_completed p ≡ false)
      × (is_embedded_internal_error p ≡ true))
    × AreRetried answers (k + 1) n

-- The loop succeeds on request k + n when the answers before were HTTP 200s with an embedded
-- InternalError, no more of them than the retries, and that one has the result of a completed upload.
complete-after_retries :
    (answers : ℕ → Result Posted) (retries k n : ℕ) (p : Posted)
    → n ≤ retries
    → AreRetried answers k n
    → answers (k + n) ≡ ok p
    → is_completed p ≡ true
    → complete answers retries k ≡ (ok tt, k + n)
unfolding complete
complete-after_retries answers zero k zero p le retried last done =
    let at : answers k ≡ ok p = subst (λ n. answers n ≡ ok p) (omega arith) last in
    rw (at, done, complete) (ap (λ n. (ok tt, n)) (omega arith))
complete-after_retries answers (suc retries) k zero p le retried last done =
    let at : answers k ≡ ok p = subst (λ n. answers n ≡ ok p) (omega arith) last in
    rw (at, done, complete) (ap (λ n. (ok tt, n)) (omega arith))
complete-after_retries answers zero k (suc n) p le retried last done = absurd (omega arith)
complete-after_retries answers (suc retries) k (suc n) p le ((q, here, not_yet, again), later) last
      done =
    let rest =
      complete-after_retries answers retries (k + 1) n p (omega arith) later
        (subst (λ m. answers m ≡ ok p) (omega arith) last) done in
    rw (here, not_yet, again, complete) (rest ∙ ap (λ m. (ok tt, m)) (omega arith))

-- The upload once FinalizeMultipartUpload has marked it.
abbrev pub finalized : S3MultiPartUpload → S3MultiPartUpload
finalized u = record u { upload_finalized = true }

abbrev pub completion_of : List Text → Text
completion_of etags =
    codes "<CompleteMultipartUpload xmlns=\"http://s3.amazonaws.com/doc/2006-03-01/\">"
    ++ part_elements 1 etags
    ++ codes "</CompleteMultipartUpload>"

-- FinalizeMultipartUpload succeeds on an upload that was not finalized before, whose parts all have an
-- ETag, when the server answers the request that lists the parts in the order of their numbers, from 1
-- on, with the result of a completed upload, after at most `retries` HTTP 200s with an embedded
-- InternalError. The upload is finalized then.
pub finalize_multipart_upload-after_retries :
    (answers : Text → ℕ → Result Posted) (retries n : ℕ) (u : S3MultiPartUpload) (etags : List Text)
    (p : Posted)
    → u.upload_finalized ≡ false
    → u.parts_uploaded ≡ length etags
    → Known u.part_etags 0 etags
    → n ≤ retries
    → AreRetried (answers (completion_of etags)) 0 n
    → answers (completion_of etags) n ≡ ok p
    → is_completed p ≡ true
    → finalize_multipart_upload answers retries u ≡ (ok tt, finalized u)
unfolding finalize_multipart_upload
finalize_multipart_upload-after_retries answers retries n u etags p unfinished counted known le
      retried last done =
    let body = completion_body-part_elements (finalized u) etags counted known in
    let completed =
      complete-after_retries (answers (completion_of etags)) retries 0 n p le retried
        (ap (answers (completion_of etags)) (omega arith) ∙ last) done in
    rw (unfinished, body, completed, finalize_multipart_upload) refl
