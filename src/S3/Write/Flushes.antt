-- ===== src/S3/Write/Flushes.antt =====
-- FlushBuffer as the loop of Write needs it.
use haybarn_httpfs.Base.{
  ◌+◌, ◌%◌, ◌^◌, ◌<◌, ◌≡◌, refl, ◌⊎◌, inl, inr, true, false, some, arith, ◌==◌, erase_number,
}
use haybarn_httpfs.Base
use haybarn_httpfs.Http.Types.{Exception, Result, ok, throw, Result-cases}
use haybarn_httpfs.S3.Upload.{
  S3WriteBuffer, S3MultiPartUpload, Posted, rethrow_io_error, initialize_multipart_upload,
  notify_uploads_in_progress,
}
use haybarn_httpfs.S3.Upload.Flush.{System, start_upload, claim_buffer, flush_buffer}
use haybarn_httpfs.S3.Write.Parts.{Flushes}

-- Upload threads that end leave the open buffers and the part size alone.
abbrev pub LeavesBuffers : (System → System) → Type 0
LeavesBuffers await =
    (s : System)
    → ((await s).upload.write_buffers ≡ s.upload.write_buffers)
      × ((await s).upload.part_size ≡ s.upload.part_size)

initialize_multipart_upload-buffers :
    (post : Result Posted) (u : S3MultiPartUpload)
    → ((initialize_multipart_upload post u).1.write_buffers ≡ u.write_buffers)
      × ((initialize_multipart_upload post u).1.part_size ≡ u.part_size)
unfolding initialize_multipart_upload
initialize_multipart_upload-buffers (throw e) u = (refl, refl)
initialize_multipart_upload-buffers (ok p) u = ground arith

start_upload-buffers :
    (post : Result Posted) (b : S3WriteBuffer) (s : System)
    → (start_upload post b s).0 ≡ ok tt
    → ((start_upload post b s).1.upload.write_buffers ≡ s.upload.write_buffers)
      × ((start_upload post b s).1.upload.part_size ≡ s.upload.part_size)
unfolding start_upload
start_upload-buffers post b s went =
    let u = record s.upload { uploads_in_progress = (s.upload.uploads_in_progress + 1) % 2 ^ 16 } in
    let kept = initialize_multipart_upload-buffers post u in
    elim (Result-cases (initialize_multipart_upload post u).0) [
      | inl (id, e) ↦ ground (arith, e, kept)
      | inr (x, e) ↦
          elim (Result-cases
            (notify_uploads_in_progress (initialize_multipart_upload post u).1).0) [
              | inl (o, f) ↦ ground (arith, e, f, kept)
              | inr (y, f) ↦ ground (arith, e, f, kept)
            ]
    ]

claim_buffer-buffers :
    (b : S3WriteBuffer) (s : System)
    → 0 < Base.length b.bytes
    → b.uploading ≡ false
    → ((e : Exception) × ((claim_buffer b s).0 ≡ throw e))
      ⊎ (((claim_buffer b s).0 ≡ ok (some (record b { uploading = true })))
          × ((claim_buffer b s).1.upload.write_buffers
              ≡ erase_number b.part_no s.upload.write_buffers)
          × ((claim_buffer b s).1.upload.part_size ≡ s.upload.part_size))
unfolding claim_buffer
claim_buffer-buffers b s filled idle =
    let not_empty : (Base.length b.bytes == 0) ≡ false = ground arith in
    elim (Result-cases (rethrow_io_error s.upload)) [
      | inr (e, p) ↦ inl (e, rw (not_empty, idle, p, claim_buffer) refl)
      | inl (o, p) ↦ inr (ground (arith, p, not_empty))
    ]

pub flush_buffer-Flushes :
    (await : System → System) (post : Result Posted)
    → LeavesBuffers await
    → Flushes (flush_buffer await post)
unfolding flush_buffer
flush_buffer-Flushes await post leaves b s filled idle went =
    elim (claim_buffer-buffers b s filled idle) [
      | inl (e, p) ↦ absurd (ground (arith, p))
      | inr (p, closed, same) ↦
          let s' = (claim_buffer b s).1 in
          let claimed = record b { uploading = true } in
          let (waited, size) = leaves s' in
          let started : (start_upload post claimed (await s')).0 ≡ ok tt = ground (arith, p) in
          let (kept, kept_size) = start_upload-buffers post claimed (await s') started in
          ground (arith, p, closed, same, waited, size, kept, kept_size)
    ]
