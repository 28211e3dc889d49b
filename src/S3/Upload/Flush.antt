-- ===== src/S3/Upload/Flush.antt =====
-- Flushing the buffers of a multipart upload: FlushBuffer and FlushAllBuffers (s3_multi_part_upload.cpp).
use haybarn_httpfs.Base.{
  ℕ, ◌+◌, ◌%◌, ◌^◌, true, ◌||◌, Option, none, some, List, [], ◌∷◌, ◌++◌, ◌==◌, if◌then◌else◌,
  length, is_empty, erase_number, values,
}
use haybarn_httpfs.Http.Types.{Response, Result, ok, throw}
use haybarn_httpfs.S3.Upload.{
  S3WriteBuffer, S3MultiPartUpload, Posted, rethrow_io_error, initialize_multipart_upload,
  upload_buffer_implementation, notify_uploads_in_progress,
}

-- The upload and the buffers that upload threads are sending.
pub record System : Type 0 where
  pub upload : S3MultiPartUpload
  pub in_flight : List S3WriteBuffer

-- FlushBuffer from where an upload thread is free: `post` is the answer to InitializeMultipartUpload.
unfoldable pub start_upload : Result Posted → S3WriteBuffer → System → Result (Unit {0}) × System
unfolding initialize_multipart_upload notify_uploads_in_progress
start_upload post write_buffer s =
    let u = record s.upload { uploads_in_progress = (s.upload.uploads_in_progress + 1) % 2 ^ 16 } in
    if u.initialized_multipart_upload
    then (ok tt, record { upload = u; in_flight = s.in_flight ++ write_buffer ∷ [] })
    else (let (id, u') = initialize_multipart_upload post u in
        elim id [
          | throw e ↦
              let (notified, u'') = notify_uploads_in_progress u' in
              (
                elim notified [ throw e' ↦ throw e' | ok _ ↦ throw e ],
                record { upload = u''; in_flight = s.in_flight },
              )
          | ok upload_id ↦ (
            ok tt,
            record {
              upload = record u' { multipart_upload_id = upload_id };
              in_flight = s.in_flight ++ write_buffer ∷ [];
            },
          )
        ])

-- The flag of an open buffer, which FlushBuffer sets before it looks for an error.
unfoldable pub mark_uploading : ℕ → List (ℕ × S3WriteBuffer) → List (ℕ × S3WriteBuffer)
mark_uploading k [] = []
mark_uploading k ((j, b) ∷ m) =
    let rest = mark_uploading k m in
    if j == k then (j, record b { uploading = true }) ∷ rest else (j, b) ∷ rest

-- FlushBuffer up to where it waits for an upload thread: an empty buffer, or one that is uploading, is
-- left alone; the buffer is taken out of the open ones.
unfoldable pub claim_buffer : S3WriteBuffer → System → Result (Option S3WriteBuffer) × System
unfolding rethrow_io_error mark_uploading
claim_buffer write_buffer s =
    if length write_buffer.bytes == 0 || write_buffer.uploading
    then (ok none, s)
    else elim (rethrow_io_error s.upload) [
      | throw e ↦ (
        throw e,
        record s {
          upload = record s.upload {
            write_buffers = mark_uploading write_buffer.part_no s.upload.write_buffers;
          };
        },
      )
      | ok _ ↦ (
        ok (some (record write_buffer { uploading = true })),
        record s {
          upload = record s.upload {
            write_buffers = erase_number write_buffer.part_no s.upload.write_buffers;
          };
        },
      )
    ]

-- `await` is what the upload threads do while FlushBuffer waits for one of them.
unfoldable pub flush_buffer :
    (System → System) → Result Posted → S3WriteBuffer → System → Result (Unit {0}) × System
unfolding claim_buffer start_upload
flush_buffer await post write_buffer s =
    let (claimed, s') = claim_buffer write_buffer s in
    elim claimed [
      | throw e ↦ (throw e, s')
      | ok none ↦ (ok tt, s')
      | ok (some claimed_buffer) ↦ start_upload post claimed_buffer (await s')
    ]

-- The loop over the buffers in FlushAllBuffers.
unfoldable pub flush_buffers :
    (System → System) → Result Posted → List S3WriteBuffer → System → Result (Unit {0}) × System
unfolding flush_buffer
flush_buffers await post [] s = (ok tt, s)
flush_buffers await post (write_buffer ∷ to_flush) s =
    let (flushed, s') =
      if write_buffer.uploading then (ok tt, s) else flush_buffer await post write_buffer s in
    elim flushed [ throw e ↦ (throw e, s') | ok _ ↦ flush_buffers await post to_flush s' ]

-- `finish` is what the threads do until none is uploading.
unfoldable pub flush_and_wait :
    (System → System)
    → (System → System)
    → Result Posted
    → List S3WriteBuffer
    → System
    → Result (Unit {0}) × System
unfolding flush_buffers rethrow_io_error
flush_and_wait await finish post to_flush s =
    let (flushed, s') = flush_buffers await post to_flush s in
    elim flushed [
      | throw e ↦ (throw e, s')
      | ok _ ↦ (rethrow_io_error (finish s').upload, finish s')
    ]

-- A multipart upload is opened first.
unfoldable pub open_and_flush :
    (System → System)
    → (System → System)
    → Result Posted
    → List S3WriteBuffer
    → System
    → Result (Unit {0}) × System
unfolding flush_and_wait initialize_multipart_upload
open_and_flush await finish post to_flush s =
    let (id, u) = initialize_multipart_upload post s.upload in
    elim id [
      | throw e ↦ (throw e, record s { upload = u })
      | ok upload_id ↦
          flush_and_wait await finish post to_flush
            (record s { upload = record u { multipart_upload_id = upload_id } })
    ]

-- FlushAllBuffers. One buffer and no multipart upload: the buffer is the whole file, and `put` the
-- answer to its request.
unfoldable pub flush_all_buffers :
    (System → System)
    → (System → System)
    → Result Posted
    → Result Response
    → System
    → Result (Unit {0}) × System
unfolding flush_and_wait upload_buffer_implementation open_and_flush
flush_all_buffers await finish post put s =
    if s.upload.initialized_multipart_upload
    then flush_and_wait await finish post (values s.upload.write_buffers) s
    else elim (values s.upload.write_buffers) [
      | write_buffer ∷ [] ↦
          if is_empty s.upload.kms_key_id
          then (let (uploaded, u) = upload_buffer_implementation put write_buffer true s.upload in
              elim uploaded [
                | throw e ↦ (throw e, record s { upload = u })
                | ok _ ↦ (ok tt, record s { upload = record u { upload_finalized = true } })
              ])
          else open_and_flush await finish post (write_buffer ∷ []) s
      | to_flush ↦ open_and_flush await finish post to_flush s
    ]
