-- ===== src/S3/Upload.antt =====
-- A multipart upload (s3_multi_part_upload.cpp) and its part size (S3FileHandle::Initialize, s3fs.cpp).
pub mod Flush
pub mod Completion
mod Threads
mod Completes
mod PartSize
mod Tests
use haybarn_httpfs.Base.{
  ℕ, ◌+◌, ◌-◌, ◌*◌, ◌/◌, ◌%◌, ◌^◌, max, Bool, true, false, not, Option, none, some, List, [], ◌∷◌,
  ◌++◌, ◌==◌, if◌then◌else◌, Text, codes, find, substr, lookup, contains_number,
}
use haybarn_httpfs.Http.Types.{
  ExceptionType, io, http, internal, bad_upload_response, no_uploads_active, bad_part_response,
  upload_failed, Exception, Response, Result, ok, throw, plain, word,
}

pub record S3ConfigParams : Type 0 where
  pub max_file_size : ℕ
  pub max_parts_per_file : ℕ
  pub max_upload_threads : ℕ

-- S3WriteBuffer. `bytes` is the buffer as far as it is written, so `idx` is its length.
pub record S3WriteBuffer : Type 0 where
  pub part_no : ℕ
  pub bytes : List ℕ
  pub uploading : Bool

-- S3MultiPartUpload. `error_manager` is the first error that was pushed.
pub record S3MultiPartUpload : Type 0 where
  pub config_params : S3ConfigParams
  pub kms_key_id : Text
  pub initialized_multipart_upload : Bool
  pub multipart_upload_id : Text
  pub part_size : ℕ
  pub write_buffers : List (ℕ × S3WriteBuffer)
  pub uploads_in_progress : ℕ
  pub part_etags : List (ℕ × Text)
  pub parts_uploaded : ℕ
  pub upload_finalized : Bool
  pub error_manager : Option Exception

-- What a POST request answered, with the body it received.
pub record Posted : Type 0 where
  pub response : Response
  pub result : Text

abbrev pub throws_none : Option Exception → Result (Unit {0})
throws_none none = ok tt
throws_none (some e) = throw e

unfoldable pub rethrow_io_error : S3MultiPartUpload → Result (Unit {0})
rethrow_io_error u = throws_none u.error_manager

-- InitializeMultipartUpload, from the answer to its request.
unfoldable pub initialize_multipart_upload :
    Result Posted → S3MultiPartUpload → Result Text × S3MultiPartUpload
unfolding find substr
initialize_multipart_upload (throw e) u = (throw e, u)
initialize_multipart_upload (ok p) u =
    if not (p.response.status == 200)
    then (throw (plain http upload_failed), u)
    else elim (find p.result (codes "<UploadId>") 0) [
      | none ↦ (throw (plain http bad_upload_response), u)
      | some open_tag_pos ↦ elim (find p.result (codes "</UploadId>") open_tag_pos) [
        | none ↦ (throw (plain http bad_upload_response), u)
        | some close_tag_pos ↦ (
          ok (substr p.result (open_tag_pos + 10) (close_tag_pos - (open_tag_pos + 10))),
          record u { initialized_multipart_upload = true },
        )
      ]
    ]

-- What UploadBufferImplementation makes of the answer to its PUT request: the ETag, or what it throws.
unfoldable pub uploaded_etag : Result Response → Result Text
uploaded_etag (throw e) = throw e
uploaded_etag (ok r) =
    if not (r.status == 200)
    then throw (plain http upload_failed)
    else elim (lookup (codes "ETag") r.headers) [
      | none ↦ throw (plain io bad_part_response)
      | some etag ↦ ok etag
    ]

abbrev pub is_io_or_http : ExceptionType → Bool
is_io_or_http io = true
is_io_or_http http = true
is_io_or_http _ = false

-- TaskErrorManager::PushError keeps the first error.
abbrev pub push_error : Exception → S3MultiPartUpload → S3MultiPartUpload
push_error e u = record u {
  error_manager = elim u.error_manager [ none ↦ some e | some first ↦ some first ];
}

-- UploadBufferImplementation. An etag that is there is kept, as unordered_map::insert does.
unfoldable pub upload_buffer_implementation :
    Result Response
    → S3WriteBuffer
    → Bool
    → S3MultiPartUpload
    → Result (Unit {0}) × S3MultiPartUpload
unfolding uploaded_etag
upload_buffer_implementation put write_buffer single_upload u = elim (uploaded_etag put) [
  | throw e ↦
      if single_upload
      then (throw e, u)
      else if not (is_io_or_http e.type)
      then (throw e, u)
      else (ok tt, push_error e u)
  | ok etag ↦ (
    ok tt,
    record u {
      part_etags =
          if contains_number write_buffer.part_no u.part_etags
          then u.part_etags
          else u.part_etags ++ (write_buffer.part_no, etag) ∷ [];
      parts_uploaded = (u.parts_uploaded + 1) % 2 ^ 16;
    },
  )
]

unfoldable pub notify_uploads_in_progress :
    S3MultiPartUpload → Result (Unit {0}) × S3MultiPartUpload
notify_uploads_in_progress u =
    if u.uploads_in_progress == 0
    then (throw (plain internal no_uploads_active), u)
    else (ok tt, record u { uploads_in_progress = u.uploads_in_progress - 1 })

-- UploadBuffer, the body of an upload thread.
unfoldable pub upload_buffer :
    Result Response → S3WriteBuffer → S3MultiPartUpload → Result (Unit {0}) × S3MultiPartUpload
unfolding upload_buffer_implementation notify_uploads_in_progress
upload_buffer put write_buffer u =
    let (result, u') = upload_buffer_implementation put write_buffer false u in
    elim result [ throw e ↦ (throw e, u') | ok _ ↦ notify_uploads_in_progress u' ]

-- The part size of S3FileHandle::Initialize, a multiple of Storage::DEFAULT_BLOCK_SIZE, in idx_t.
unfoldable pub part_size_for : ℕ → S3ConfigParams → ℕ
part_size_for block_size config_params =
    let required_part_size = config_params.max_file_size / config_params.max_parts_per_file in
    let minimum_part_size = max 5242880 required_part_size in
    ((minimum_part_size + block_size) % word + word - 1) % word / block_size * block_size % word
