-- ===== src/S3/Write/Tests.antt =====
-- A file of ten bytes with parts of four.
use haybarn_httpfs.Base.{
  ℕ, ◌≡◌, refl, true, false, none, List, [], ◌∷◌, map, arith, codes, lookup_number, erase_number,
}
use haybarn_httpfs.Http.Types.{http, upload_failed, Result, throw, plain}
use haybarn_httpfs.S3.Upload.{S3WriteBuffer, S3MultiPartUpload, Posted}
use haybarn_httpfs.S3.Upload.Flush.{System, flush_buffer}
use haybarn_httpfs.S3.Write.{Writing, write}
use haybarn_httpfs.S3.Write.Parts.{IsWritten, IsOutcome}
use haybarn_httpfs.S3.Write.Loop.{write-IsOutcome}
use haybarn_httpfs.S3.Write.Flushes.{flush_buffer-Flushes}

abbrev upload : S3MultiPartUpload
upload = record {
  config_params = record { max_file_size = 100; max_parts_per_file = 25; max_upload_threads = 4 };
  kms_key_id = [];
  initialized_multipart_upload = true;
  multipart_upload_id = codes "id";
  part_size = 4;
  write_buffers = [];
  uploads_in_progress = 0;
  part_etags = [];
  parts_uploaded = 0;
  upload_finalized = false;
  error_manager = none;
}

abbrev fresh : Writing
fresh = record {
  open_for_writing = true;
  file_offset = 0;
  length = 0;
  system = record { upload = upload; in_flight = [] };
  handed = [];
}

fresh-IsWritten : IsWritten [] [] fresh
fresh-IsWritten = record {
  parts = tt;
  content_of = refl;
  short = omega arith;
  at_end = refl;
  buffers = refl;
}

abbrev no_answer : Result Posted
no_answer = throw (plain http upload_failed)

abbrev flush : S3WriteBuffer → System → Result (Unit {0}) × System
flush = flush_buffer (λ s. s) no_answer

abbrev ten_bytes : List ℕ
ten_bytes = 0 ∷ 1 ∷ 2 ∷ 3 ∷ 4 ∷ 5 ∷ 6 ∷ 7 ∷ 8 ∷ 9 ∷ []

ten_bytes-parts :
    let w = (write flush ten_bytes 0 fresh).1 in
    (map (λ b. b.bytes) w.handed ≡ (0 ∷ 1 ∷ 2 ∷ 3 ∷ []) ∷ (4 ∷ 5 ∷ 6 ∷ 7 ∷ []) ∷ [])
    × (map (λ p. p.1.bytes) w.system.upload.write_buffers ≡ (8 ∷ 9 ∷ []) ∷ [])
unfolding write flush_buffer lookup_number erase_number
ten_bytes-parts = (refl, refl)

write-IsOutcome_example : IsOutcome flush ten_bytes (write flush ten_bytes 0 fresh)
write-IsOutcome_example =
    write-IsOutcome flush (flush_buffer-Flushes (λ s. s) no_answer (λ s. (refl, refl))) ten_bytes []
      [] 0 fresh fresh-IsWritten refl refl (omega arith) (omega arith)
