-- ===== src/S3/Upload/Tests.antt =====
-- An upload of two parts.
use haybarn_httpfs.Base.{
  ℕ, ◌+◌, ◌*◌, ◌/◌, ◌≤◌, ◌<◌, max, ◌≡◌, refl, true, false, none, List, [], ◌∷◌, ◌++◌, arith, ◌==◌,
  if◌then◌else◌, Text, codes, text_eq,
}
use haybarn_httpfs.Base
use haybarn_httpfs.Http.Types.{http, upload_failed, Response, Result, ok, throw, plain}
use haybarn_httpfs.S3.Xml.{try_find_tag_contents}
use haybarn_httpfs.S3.Upload.{
  S3ConfigParams, S3WriteBuffer, S3MultiPartUpload, Posted, upload_buffer_implementation,
  notify_uploads_in_progress, part_size_for,
}
use haybarn_httpfs.S3.Upload.Flush.{System, start_upload}
use haybarn_httpfs.S3.Upload.Completion.{
  is_embedded_internal_error, is_completed, finalize_multipart_upload,
}
use haybarn_httpfs.S3.Upload.Threads.{
  started, Reaches, none_yet, then_one, Counted, Reaches-Counted,
  notify_uploads_in_progress-succeeds,
}
use haybarn_httpfs.S3.Upload.Completes.{finalized, finalize_multipart_upload-after_retries}
use haybarn_httpfs.S3.Upload.PartSize.{part_size_for-covers}

abbrev config : S3ConfigParams
config = record { max_file_size = 800000000000; max_parts_per_file = 10000; max_upload_threads = 2 }

part_size_for-covers_example :
    (5242880 ≤ part_size_for 262136 config)
    × (part_size_for 262136 config < max 5242880 (800000000000 / 10000) + 262136)
    × (800000000000 < 10000 * (part_size_for 262136 config + 1))
part_size_for-covers_example =
    part_size_for-covers 262136 config (omega arith) (omega arith) (omega arith)

-- The division of Initialize rounds down, so as many parts as are allowed can miss the largest file.
abbrev uneven : S3ConfigParams
uneven = record { max_file_size = 15728641; max_parts_per_file = 3; max_upload_threads = 2 }

uneven_missed : 3 * part_size_for 1024 uneven < uneven.max_file_size
unfolding part_size_for
uneven_missed = omega arith

abbrev upload : S3MultiPartUpload
upload = record {
  config_params = config;
  kms_key_id = [];
  initialized_multipart_upload = true;
  multipart_upload_id = codes "id";
  part_size = 4;
  write_buffers = [];
  uploads_in_progress = 0;
  part_etags = (1, codes "b") ∷ (0, codes "a") ∷ [];
  parts_uploaded = 2;
  upload_finalized = false;
  error_manager = none;
}

abbrev accepted : Response
accepted = record {
  status = 200;
  headers = (codes "ETag", codes "c") ∷ [];
  body = [];
  success = true;
  request_error = none;
}

abbrev answers : ℕ → Result Posted
answers n = ok (record {
  response = accepted;
  result =
      if n == 0
      then codes "<Error><Code>InternalError</Code></Error>"
      else codes "<CompleteMultipartUploadResult/>";
})

again :
    is_embedded_internal_error
      (record { response = accepted; result = codes "<Error><Code>InternalError</Code></Error>" })
    ≡ true
unfolding is_embedded_internal_error try_find_tag_contents text_eq
again = refl

abbrev completed : Posted
completed = record { response = accepted; result = codes "<CompleteMultipartUploadResult/>" }

abbrev etags : List Text
etags = codes "a" ∷ codes "b" ∷ []

finalize_multipart_upload-after_retries_example :
    finalize_multipart_upload (λ body. answers) 3 upload ≡ (ok tt, finalized upload)
unfolding is_completed Base.lookup_number
finalize_multipart_upload-after_retries_example =
    finalize_multipart_upload-after_retries (λ body. answers) 3 1 upload etags completed refl refl
      (refl, (refl, tt)) (omega arith) ((_, refl, refl, again), tt) refl refl

abbrev idle : System
idle = record { upload = upload; in_flight = [] }

abbrev part : S3WriteBuffer
part = record { part_no = 2; bytes = 1 ∷ 2 ∷ 3 ∷ 4 ∷ []; uploading = true }

abbrev busy : S3MultiPartUpload
busy = record upload { uploads_in_progress = 1 }

abbrev no_answer : Result Posted
no_answer = throw (plain http upload_failed)

one_started : Reaches idle (record { upload = busy; in_flight = [] ++ (part ∷ []) })
unfolding start_upload
one_started = then_one idle idle _ (none_yet idle) (started no_answer part idle (omega arith))

Reaches-Counted_example : Counted 2 (record { upload = busy; in_flight = [] ++ (part ∷ []) })
Reaches-Counted_example =
    Reaches-Counted 2 (omega arith) idle (record { upload = busy; in_flight = [] ++ (part ∷ []) })
      refl refl refl one_started

notify_uploads_in_progress-succeeds_example :
    (notify_uploads_in_progress (upload_buffer_implementation (ok accepted) part false busy).1).0
    ≡ ok tt
notify_uploads_in_progress-succeeds_example =
    notify_uploads_in_progress-succeeds 2 (omega arith) idle (ok accepted) [] [] part busy refl refl
      refl one_started
