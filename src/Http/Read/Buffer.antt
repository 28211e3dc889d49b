-- ===== src/Http/Read/Buffer.antt =====
-- The read buffer of a handle (httpfs.cpp): AddStatistics, AdaptReadBufferSize and the steps of
-- ReadInternal that send no request.
use haybarn_httpfs.Base.{
  ℕ, ◌+◌, ◌-◌, ◌*◌, ◌%◌, min, Bool, true, false, ◌&&◌, not, Option, none, some, List, [], ◌∷◌, ltb,
  leb, ◌==◌, if◌then◌else◌, length, take, drop, replicate, splice,
}
use haybarn_httpfs.Http.Types.{
  ExceptionType, io, http, internal, Message, range_not_supported, cached_not_initialized,
  cached_too_short, Response, Result, ok, throw, plain, word,
}
use haybarn_httpfs.Http.CachedFile.{CachedFile}
use haybarn_httpfs.Http.Handle.{FileHandle, Session, maximum_read_buffer_len}

-- The head of the statistics is the last request.
unfoldable pub add_statistics : ℕ → ℕ → ℕ → FileHandle → FileHandle
add_statistics offset len duration h = record h {
  range_request_statistics =
      record { offset = offset; length = len; duration = duration } ∷ h.range_request_statistics;
}

-- A grown buffer is a new allocation, here with zeros.
unfoldable pub adapt_read_buffer_size : ℕ → FileHandle → FileHandle
adapt_read_buffer_size next_read_offset h = elim h.range_request_statistics [
  | [] ↦ h
  | last_read ∷ _ ↦
      if not (last_read.offset + last_read.length == next_read_offset)
      then h
      else if leb maximum_read_buffer_len (length h.read_buffer)
      then h
      else record h { read_buffer = replicate (length h.read_buffer * 2) 0 }
]

abbrev pub is_range_not_supported : Message → Bool
is_range_not_supported range_not_supported = true
is_range_not_supported _ = false

abbrev pub is_http : ExceptionType → Bool
is_http http = true
is_http _ = false

unfoldable pub responded_with_range_request_not_supported : Response → Bool
responded_with_range_request_not_supported r = elim r.request_error [
  | none ↦ false
  | some e ↦ is_http e.type && is_range_not_supported e.message
]

abbrev pub or_empty {ℓ} : {A : Type ℓ} → Option (List A) → List A
or_empty none = []
or_empty (some l) = l

-- What is left of the file behind an offset; past its end the difference of two idx_t wraps.
abbrev pub remaining : ℕ → ℕ → ℕ
remaining file_length offset = (file_length + word - offset) % word

-- The state of ReadInternal. `buffer` is the caller's.
pub record Reading : Type 0 where
  pub session : Session
  pub buffer : List ℕ
  pub to_read : ℕ
  pub buffer_offset : ℕ
  pub start_offset : ℕ

abbrev pub on_handle : (FileHandle → FileHandle) → Session → Session
on_handle f s = record s { handle = f s.handle }

-- The copy out of the read buffer.
unfoldable pub copy_buffered : Reading → Reading
copy_buffered rd =
    let h = rd.session.handle in
    let buffer_read_len = min h.buffer_available rd.to_read in
    if ltb 0 buffer_read_len
    then record {
      session = record rd.session {
        handle = record h {
          buffer_idx = h.buffer_idx + buffer_read_len;
          buffer_available = h.buffer_available - buffer_read_len;
        };
      };
      buffer =
          splice rd.buffer_offset (take buffer_read_len (drop h.buffer_idx h.read_buffer))
            rd.buffer;
      to_read = rd.to_read - buffer_read_len;
      buffer_offset = rd.buffer_offset + buffer_read_len;
      start_offset = rd.start_offset + buffer_read_len;
    }
    else rd

-- The buffer's position for a location, or an empty buffer.
unfoldable pub seek_buffer : ℕ → FileHandle → FileHandle
seek_buffer location h =
    if leb h.buffer_start location && ltb location h.buffer_end
    then record h {
      buffer_idx = location - h.buffer_start;
      buffer_available = h.buffer_end - h.buffer_start - (location - h.buffer_start);
    }
    else record h { buffer_available = 0; buffer_idx = 0 }

-- The buffer after it was filled from `start_offset`.
unfoldable pub fill_buffer : ℕ → ℕ → List ℕ → FileHandle → FileHandle
fill_buffer start_offset available bytes h = record h {
  read_buffer = splice 0 bytes h.read_buffer;
  buffer_available = available;
  buffer_idx = 0;
  buffer_start = start_offset;
  buffer_end = start_offset + available;
}

unfoldable pub set_file_offset : ℕ → FileHandle → FileHandle
set_file_offset offset h = record h { file_offset = offset }

unfoldable pub empty_buffer : FileHandle → FileHandle
empty_buffer h = record h { buffer_available = 0; buffer_idx = 0 }

-- A read from the file of a full download.
unfoldable pub read_cached : CachedFile → ℕ → ℕ → List ℕ → Session → Result Bool × List ℕ × Session
unfolding set_file_offset
read_cached file nr_bytes location buffer s =
    if not file.initialized
    then (throw (plain internal cached_not_initialized), buffer, s)
    else if ltb file.size (location + nr_bytes)
    then (throw (plain io cached_too_short), buffer, s)
    else (
      ok true,
      splice 0 (take nr_bytes (drop location file.content)) buffer,
      on_handle (set_file_offset (location + nr_bytes)) s,
    )

abbrev pub begin_reading : ℕ → ℕ → List ℕ → Session → Reading
begin_reading nr_bytes location buffer s = record {
  session = on_handle (seek_buffer location) s;
  buffer = buffer;
  to_read = nr_bytes;
  buffer_offset = 0;
  start_offset = location;
}

-- The size of the downloaded file.
abbrev pub downloaded_length : Session → ℕ
downloaded_length s = elim s.handle.cached_file_handle [ none ↦ 0 | some file ↦ file.size ]
