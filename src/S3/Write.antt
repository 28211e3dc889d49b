-- ===== src/S3/Write.antt =====
-- S3FileSystem::Write (s3fs.cpp) and S3MultiPartUpload::GetBuffer: the bytes of a file are put into one
-- buffer for each part, and a full buffer is flushed.
mod Round
mod Parts
mod Loop
mod Flushes
mod Tests
use haybarn_httpfs.Base.{
  ℕ, zero, suc, ◌+◌, ◌-◌, ◌*◌, ◌/◌, ◌%◌, ◌^◌, min, Bool, false, not, none, some, List, [], ◌∷◌,
  ◌++◌, leb, ◌==◌, if◌then◌else◌, take, drop, lookup_number,
}
use haybarn_httpfs.Base
use haybarn_httpfs.Http.Types.{
  internal, not_write_mode, non_sequential_write, out_of_fuel, Result, ok, throw, plain, word,
}
use haybarn_httpfs.S3.Upload.{S3WriteBuffer, S3MultiPartUpload}
use haybarn_httpfs.S3.Upload.Flush.{System}

-- The file handle that is written, with its upload. `handed` are the full buffers that were handed to
-- FlushBuffer without an exception, in their order.
pub record Writing : Type 0 where
  pub open_for_writing : Bool
  pub file_offset : ℕ
  pub length : ℕ
  pub system : System
  pub handed : List S3WriteBuffer

-- The constructor of S3WriteBuffer for the part `write_buffer_idx`.
abbrev pub new_buffer : ℕ → S3WriteBuffer
new_buffer write_buffer_idx = record { part_no = write_buffer_idx; bytes = []; uploading = false }

-- GetBuffer. The writer is the only thread that makes buffers, so the second look for one finds none.
unfoldable pub get_buffer : ℕ → S3MultiPartUpload → S3WriteBuffer × S3MultiPartUpload
unfolding lookup_number
get_buffer write_buffer_idx u = elim (lookup_number write_buffer_idx u.write_buffers) [
  | some write_buffer ↦ (write_buffer, u)
  | none ↦ (
    new_buffer write_buffer_idx,
    record u { write_buffers = (write_buffer_idx, new_buffer write_buffer_idx) ∷ u.write_buffers },
  )
]

-- The shared buffer after it was written through the pointer that GetBuffer returned.
unfoldable pub update_number :
    ℕ → S3WriteBuffer → List (ℕ × S3WriteBuffer) → List (ℕ × S3WriteBuffer)
update_number k b [] = []
update_number k b ((j, c) ∷ m) = if j == k then (j, b) ∷ m else (j, c) ∷ update_number k b m

-- The memcpy to a position that is written up to, or inside.
unfoldable pub write_bytes : ℕ → List ℕ → S3WriteBuffer → S3WriteBuffer
write_bytes idx_to_write chunk b = record b {
  bytes = take idx_to_write b.bytes ++ (chunk ++ drop (idx_to_write + Base.length chunk) b.bytes);
}

abbrev pub with_buffers : List (ℕ × S3WriteBuffer) → Writing → Writing
with_buffers buffers w = record w {
  system = record w.system { upload = record w.system.upload { write_buffers = buffers } };
}

-- The end of a round, where the flush did not throw.
abbrev pub counted : ℕ → Result (Unit {0}) × Writing → Result ℕ × Writing
counted n (throw e, w) = (throw e, w)
counted n (ok u, w) = (ok n, record w { file_offset = w.file_offset + n; length = w.length + n })

-- `flush` is FlushBuffer, with what the other threads do and what the server answers.
module _ (flush : S3WriteBuffer → System → Result (Unit {0}) × System) where
  -- The end of a round: a buffer with `part_size` bytes or more is flushed.
  unfoldable pub flush_if_full : S3WriteBuffer → ℕ → Writing → Result (Unit {0}) × Writing
  flush_if_full b part_size w =
      if leb part_size (Base.length b.bytes)
      then (let (flushed, s) = flush b w.system in
          elim flushed [
            | throw e ↦ (throw e, record w { system = s })
            | ok _ ↦ (ok tt, record w { system = s; handed = w.handed ++ b ∷ [] })
          ])
      else (ok tt, w)

  -- The copy of a round at a position of its buffer: the number of bytes that were written.
  unfoldable pub write_part : List ℕ → ℕ → S3WriteBuffer → Writing → Result ℕ × Writing
  unfolding update_number write_bytes flush_if_full
  write_part buffer idx_to_write b w =
      let part_size = w.system.upload.part_size in
      let bytes_to_write = min (Base.length buffer) ((part_size + word - idx_to_write) % word) in
      let b' = write_bytes idx_to_write (take bytes_to_write buffer) b in
      counted bytes_to_write (
        flush_if_full b' part_size
          (with_buffers (update_number b.part_no b' w.system.upload.write_buffers) w))

  -- One round of the loop.
  unfoldable pub write_round : List ℕ → ℕ → Writing → Result ℕ × Writing
  unfolding get_buffer write_part
  write_round buffer curr_location w =
      let part_size = w.system.upload.part_size in
      let (b, u) = get_buffer ((curr_location / part_size) % 2 ^ 16) w.system.upload in
      write_part buffer ((curr_location + word - b.part_no * part_size) % word) b
        (record w { system = record w.system { upload = u } })

  -- The loop, on fuel for its rounds.
  unfoldable pub write_loop : ℕ → List ℕ → ℕ → Writing → Result (Unit {0}) × Writing
  unfolding write_round
  write_loop zero buffer curr_location w = (throw (plain internal out_of_fuel), w)
  write_loop (suc fuel) [] curr_location w = (ok tt, w)
  write_loop (suc fuel) (c ∷ rest) curr_location w =
      if not (curr_location == w.file_offset)
      then (throw (plain internal non_sequential_write), w)
      else (let (written, w') = write_round (c ∷ rest) curr_location w in
          elim written [
            | throw e ↦ (throw e, w')
            | ok n ↦ write_loop fuel (drop n (c ∷ rest)) (curr_location + n) w'
          ])

  -- S3FileSystem::Write. Every round writes a byte at least, so the length of the data is fuel enough.
  unfoldable pub write : List ℕ → ℕ → Writing → Result (Unit {0}) × Writing
  unfolding write_loop
  write buffer location w =
      if not w.open_for_writing
      then (throw (plain internal not_write_mode), w)
      else write_loop (suc (Base.length buffer)) buffer location w
