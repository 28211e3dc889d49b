-- ===== src/S3/Upload/Threads.antt =====
-- Upload threads: how many there are, and what their count is.
use haybarn_httpfs.Base.{
  ℕ, ◌+◌, ◌-◌, ◌%◌, ◌^◌, ◌≤◌, ◌<◌, ◌≡◌, refl, ap, ◌∙◌, ◌⊎◌, inl, inr, false, List, [], ◌∷◌, ◌++◌,
  arith, length, length-append,
}
use haybarn_httpfs.Http.Types.{Response, Result, ok, throw, Result-cases}
use haybarn_httpfs.S3.Upload.{
  S3WriteBuffer, S3MultiPartUpload, Posted, initialize_multipart_upload,
  upload_buffer_implementation, notify_uploads_in_progress, upload_buffer,
}
use haybarn_httpfs.S3.Upload.Flush.{System, start_upload, claim_buffer}

-- One step: the writing thread takes a buffer out, or starts its upload once a thread is free, or an
-- upload thread ends.
pub data Step : System → System → Type 0 where
  claimed : (write_buffer : S3WriteBuffer) (s : System) → Step s (claim_buffer write_buffer s).1
  started :
      (post : Result Posted) (write_buffer : S3WriteBuffer) (s : System)
      → s.upload.uploads_in_progress < s.upload.config_params.max_upload_threads
      → Step s (start_upload post write_buffer s).1
  ended :
      (put : Result Response) (before after : List S3WriteBuffer) (write_buffer : S3WriteBuffer)
      (u : S3MultiPartUpload)
      → (upload_buffer put write_buffer u).0 ≡ ok tt
      → Step
          (record { upload = u; in_flight = before ++ (write_buffer ∷ after) })
          (record { upload = (upload_buffer put write_buffer u).1; in_flight = before ++ after })

pub data Reaches : System → System → Type 0 where
  none_yet : (s : System) → Reaches s s
  then_one : (s t v : System) → Reaches s t → Step t v → Reaches s v

-- The counter counts the buffers in flight, and there are not more than allowed.
pub record Counted (threads : ℕ) (s : System) : Type 0 where
  pub limit : s.upload.config_params.max_upload_threads ≡ threads
  pub counts : s.upload.uploads_in_progress ≡ length s.in_flight
  pub within : length s.in_flight ≤ threads

module _ (threads : ℕ) (fits : threads < 2 ^ 16) where
  claim_buffer-Counted :
      (write_buffer : S3WriteBuffer) (s : System)
      → Counted threads s
      → Counted threads (claim_buffer write_buffer s).1
  unfolding claim_buffer
  claim_buffer-Counted write_buffer s v = record {
    limit = ground (arith, v.limit);
    counts = ground (arith, v.counts);
    within = ground (arith, v.within);
  }

  initialize_multipart_upload-count :
      (post : Result Posted) (u : S3MultiPartUpload)
      → ((initialize_multipart_upload post u).1.config_params ≡ u.config_params)
        × ((initialize_multipart_upload post u).1.uploads_in_progress ≡ u.uploads_in_progress)
  unfolding initialize_multipart_upload
  initialize_multipart_upload-count (throw e) u = (refl, refl)
  initialize_multipart_upload-count (ok p) u = ground arith

  start_upload-count :
      (post : Result Posted) (write_buffer : S3WriteBuffer) (s : System)
      → s.upload.uploads_in_progress + 1 < 2 ^ 16
      → ((start_upload post write_buffer s).1.upload.config_params ≡ s.upload.config_params)
        × (((start_upload post write_buffer s).1.upload.uploads_in_progress
                ≡ s.upload.uploads_in_progress + 1)
              × ((start_upload post write_buffer s).1.in_flight
                  ≡ s.in_flight ++ (write_buffer ∷ []))
            ⊎ ((start_upload post write_buffer s).1.upload.uploads_in_progress
                ≡ s.upload.uploads_in_progress)
              × ((start_upload post write_buffer s).1.in_flight ≡ s.in_flight))
  unfolding start_upload notify_uploads_in_progress
  start_upload-count post write_buffer s room =
      let u = record s.upload {
        uploads_in_progress = (s.upload.uploads_in_progress + 1) % 2 ^ 16;
      } in
      elim (Result-cases (initialize_multipart_upload post u).0) [
        | inl (id, e) ↦ ground (arith, e, initialize_multipart_upload-count post u)
        | inr (x, e) ↦ ground (arith, e, initialize_multipart_upload-count post u)
      ]

  start_upload-Counted :
      (post : Result Posted) (write_buffer : S3WriteBuffer) (s : System)
      → s.upload.uploads_in_progress < s.upload.config_params.max_upload_threads
      → Counted threads s
      → Counted threads (start_upload post write_buffer s).1
  start_upload-Counted post write_buffer s free v =
      let room : s.upload.uploads_in_progress + 1 < 2 ^ 16 = omega (arith, v.limit) in
      record {
        limit = ground (arith, v.limit, start_upload-count post write_buffer s room);
        counts = ground (
          arith,
          v.counts,
          start_upload-count post write_buffer s room,
          length-append s.in_flight (write_buffer ∷ []),
        );
        within = ground (
          arith,
          v.counts,
          v.limit,
          start_upload-count post write_buffer s room,
          length-append s.in_flight (write_buffer ∷ []),
        );
      }

  upload_buffer-count :
      (put : Result Response) (write_buffer : S3WriteBuffer) (u : S3MultiPartUpload)
      → (upload_buffer put write_buffer u).0 ≡ ok tt
      → ((upload_buffer put write_buffer u).1.config_params ≡ u.config_params)
        × ((upload_buffer put write_buffer u).1.uploads_in_progress ≡ u.uploads_in_progress - 1)
  unfolding upload_buffer upload_buffer_implementation notify_uploads_in_progress
  upload_buffer-count put write_buffer u h = ground (arith, h)

  ended-Counted :
      (put : Result Response) (before after : List S3WriteBuffer) (write_buffer : S3WriteBuffer)
      (u : S3MultiPartUpload)
      → (upload_buffer put write_buffer u).0 ≡ ok tt
      → Counted threads (record { upload = u; in_flight = before ++ (write_buffer ∷ after) })
      → Counted threads
          (record { upload = (upload_buffer put write_buffer u).1; in_flight = before ++ after })
  ended-Counted put before after write_buffer u went v =
      let (same, one_less) = upload_buffer-count put write_buffer u went in
      let whole = length-append before (write_buffer ∷ after) in
      let parts = length-append before after in
      record {
        limit = ap (λ c. c.max_upload_threads) same ∙ v.limit;
        counts = omega (arith, v.counts, one_less, whole, parts);
        within = omega (arith, v.within, whole, parts);
      }

  Step-Counted : (s t : System) → Step s t → Counted threads s → Counted threads t
  Step-Counted _ _ (claimed write_buffer s) v = claim_buffer-Counted write_buffer s v
  Step-Counted _ _ (started post write_buffer s free) v =
      start_upload-Counted post write_buffer s free v
  Step-Counted _ _ (ended put before after write_buffer u went) v =
      ended-Counted put before after write_buffer u went v

  -- The count of upload threads is right in every state that the writing thread and the upload
  -- threads reach from one without threads: uploads_in_progress is the number of buffers in flight,
  -- and it is at most max_upload_threads, which fits 16 bits.
  pub Reaches-Counted :
      (s t : System)
      → s.upload.config_params.max_upload_threads ≡ threads
      → s.upload.uploads_in_progress ≡ 0
      → s.in_flight ≡ []
      → Reaches s t
      → Counted threads t
  Reaches-Counted s _ limit idle nothing (none_yet _) = record {
    limit = limit;
    counts = ground (arith, nothing);
    within = ground (arith, nothing);
  }
  Reaches-Counted s t limit idle nothing (then_one _ r _ steps step) =
      Step-Counted r t step (Reaches-Counted s r limit idle nothing steps)

  -- An upload thread of such a state never finds the count at zero: NotifyUploadsInProgress does not
  -- throw, whatever the answer to the thread's request was.
  pub notify_uploads_in_progress-succeeds :
      (s : System) (put : Result Response) (before after : List S3WriteBuffer)
      (write_buffer : S3WriteBuffer) (u : S3MultiPartUpload)
      → s.upload.config_params.max_upload_threads ≡ threads
      → s.upload.uploads_in_progress ≡ 0
      → s.in_flight ≡ []
      → Reaches s (record { upload = u; in_flight = before ++ (write_buffer ∷ after) })
      → (notify_uploads_in_progress (upload_buffer_implementation put write_buffer false u).1).0
        ≡ ok tt
  unfolding notify_uploads_in_progress upload_buffer_implementation
  notify_uploads_in_progress-succeeds s put before after write_buffer u limit idle nothing steps =
      let v = Reaches-Counted s _ limit idle nothing steps in
      let some_left : 0 < u.uploads_in_progress =
        omega (arith, v.counts, length-append before (write_buffer ∷ after)) in
      ground (arith, some_left)
