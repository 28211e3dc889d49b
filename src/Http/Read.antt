-- ===== src/Http/Read.antt =====
-- Reading (httpfs.cpp): TryRangeRequest, ReadInternal and Read, on the read buffer of Buffer.
mod Buffer
pub mod Tried
pub mod Steps
pub mod Refill
pub mod Rounds
mod Exact
mod Tests
unfoldable pub use Buffer.*
use haybarn_httpfs.Base.{
  ℕ, zero, suc, ◌+◌, min, Bool, true, false, ◌&&◌, ◌||◌, not, Option, none, some, List, ltb, ◌==◌,
  if◌then◌else◌, length, take, drop, splice,
}
use haybarn_httpfs.Http.Types.{
  io, http, internal, request_failed, unknown_error, size_mismatch, retry_failed, out_of_fuel,
  Exception, Response, Result, ok, throw, plain,
}
use haybarn_httpfs.Http.Handle.{Session, skip_buffer, HttpUtil}
use haybarn_httpfs.Http.Range.{Server, get_range_request}
use haybarn_httpfs.Http.Download.{erase_cached_file, FileServer, full_download}

module _ (util : HttpUtil) where
  -- What TryRangeRequest makes of what GetRangeRequest did.
  unfoldable pub judge_range : ℕ → ℕ → Result (Option Response) → Session → Result Bool × Session
  unfolding responded_with_range_request_not_supported add_statistics
  judge_range file_offset buffer_out_len (throw e) s = (throw e, s)
  judge_range file_offset buffer_out_len (ok none) s = (throw (plain io unknown_error), s)
  judge_range file_offset buffer_out_len (ok (some r)) s = elim r.request_error [
    | some e ↦
        if responded_with_range_request_not_supported r
          && s.handle.http_params.auto_fallback_to_full_download
        then (ok false, s)
        else (throw e, s)
    | none ↦
        if r.success || (r.status == 206 || r.status == 202)
        then (
          ok true,
          if s.handle.flags.require_parallel_access
              then s
              else on_handle (add_statistics file_offset buffer_out_len (util.elapsed s)) s,
        )
        else (throw (util.http_exception request_failed r), s)
  ]

module _ (util : HttpUtil) (get_http_error : Response → Exception) (server : Server) where
  -- Whether the range was read, false for a fallback to a full download; with it the bytes of the
  -- caller's buffer.
  unfoldable pub try_range_request : ℕ → List ℕ → ℕ → Session → Result Bool × List ℕ × Session
  unfolding get_range_request judge_range
  try_range_request file_offset out buffer_out_len s =
      let (result, t) =
        get_range_request util get_http_error server file_offset (some out) buffer_out_len s in
      let (judged, s') = judge_range util file_offset buffer_out_len result t.session in
      (judged, or_empty t.out, s')

  -- The read of what is larger than the buffer, straight into the caller's buffer.
  unfoldable pub bypass_buffer : ℕ → Reading → Result Bool × Reading
  unfolding try_range_request empty_buffer
  bypass_buffer location rd =
      let (result, bytes, s) =
        try_range_request (location + rd.buffer_offset)
          (take rd.to_read (drop rd.buffer_offset rd.buffer)) rd.to_read rd.session in
      let buffer = splice rd.buffer_offset bytes rd.buffer in
      elim result [
        | ok true ↦ (
          ok true,
          record {
            session = on_handle empty_buffer s;
            buffer = buffer;
            to_read = rd.to_read;
            buffer_offset = rd.buffer_offset;
            start_offset = rd.start_offset + rd.to_read;
          },
        )
        | failed ↦ (failed, record rd { session = s; buffer = buffer })
      ]

  unfoldable pub refill_buffer : Reading → Result Bool × Reading
  unfolding try_range_request adapt_read_buffer_size fill_buffer
  refill_buffer rd =
      let s = on_handle (adapt_read_buffer_size rd.start_offset) rd.session in
      let available =
        min (length s.handle.read_buffer) (remaining s.handle.length rd.start_offset) in
      let (result, bytes, s') =
        try_range_request rd.start_offset (take available s.handle.read_buffer) available s in
      elim result [
        | ok true ↦ (
          ok true,
          record rd { session = on_handle (fill_buffer rd.start_offset available bytes) s' },
        )
        -- What arrived before the failure stands in the buffer.
        | failed ↦ (
          failed,
          record rd {
            session = on_handle (λ h. record h { read_buffer = splice 0 bytes h.read_buffer }) s';
          },
        )
      ]

  -- The loop of ReadInternal, on fuel; `spent` is the result when the fuel is spent.
  unfoldable pub read_loop : Result Bool → ℕ → ℕ → Reading → Result Bool × Reading
  read_loop spent zero location rd = (spent, rd)
  read_loop spent (suc fuel) location rd =
      let rd' = copy_buffered rd in
      let h = rd'.session.handle in
      elim (ltb 0 rd.to_read) [
        | false ↦ (ok true, rd)
        | true ↦ elim (ltb 0 rd'.to_read && h.buffer_available == 0) [
          | false ↦ read_loop spent fuel location rd'
          | true ↦
              elim (ltb (min (length h.read_buffer) (remaining h.length rd'.start_offset))
                rd'.to_read) [
                  | true ↦ bypass_buffer location rd'
                  | false ↦
                      let (result, rd'') = refill_buffer rd' in
                      elim result [
                        | ok true ↦ read_loop spent fuel location rd''
                        | failed ↦ (failed, rd'')
                      ]
                ]
        ]
      ]

  -- A read that does not use the buffer.
  unfoldable pub read_direct : ℕ → ℕ → List ℕ → Session → Result Bool × List ℕ × Session
  unfolding try_range_request empty_buffer set_file_offset
  read_direct nr_bytes location buffer s =
      let (result, bytes, s') = try_range_request location buffer nr_bytes s in
      elim result [
        | ok true ↦ (
          ok true,
          bytes,
          on_handle (λ h. set_file_offset (location + nr_bytes) (empty_buffer h)) s',
        )
        | failed ↦ (failed, bytes, s')
      ]

  unfoldable pub read_buffered : ℕ → ℕ → List ℕ → Session → Result Bool × List ℕ × Session
  unfolding read_loop copy_buffered bypass_buffer refill_buffer seek_buffer set_file_offset
  read_buffered nr_bytes location buffer s =
      let (result, rd) =
        read_loop (throw (plain internal out_of_fuel)) 3 location
          (begin_reading nr_bytes location buffer s) in
      elim result [
        | ok true ↦
            (ok true, rd.buffer, on_handle (set_file_offset (location + nr_bytes)) rd.session)
        | failed ↦ (failed, rd.buffer, rd.session)
      ]

  -- ReadInternal: false for a fallback to a full download.
  unfoldable pub read_internal : ℕ → ℕ → List ℕ → Session → Result Bool × List ℕ × Session
  unfolding read_cached read_direct read_buffered skip_buffer
  read_internal nr_bytes location buffer s = elim s.handle.cached_file_handle [
    | some file ↦ read_cached file nr_bytes location buffer s
    | none ↦
        if skip_buffer s.handle && ltb 0 nr_bytes
        then read_direct nr_bytes location buffer s
        else read_buffered nr_bytes location buffer s
  ]

  -- Read at a location, with the full download where range requests are not supported.
  unfoldable pub read : FileServer → ℕ → ℕ → List ℕ → Session → Result (Unit {0}) × List ℕ × Session
  unfolding read_internal full_download erase_cached_file
  read file_server nr_bytes location buffer s =
      let (result, buffer', s') = read_internal nr_bytes location buffer s in
      elim result [
        | throw e ↦ (throw e, buffer', s')
        | ok true ↦ (ok tt, buffer', s')
        | ok false ↦
            let head_reported_length = s'.handle.length in
            let (downloaded, s'') = full_download util get_http_error file_server s' in
            elim downloaded [
              | throw e ↦ (throw e, buffer', s'')
              | ok _ ↦
                  if not (downloaded_length s'' == head_reported_length)
                  then (
                    throw (plain http size_mismatch),
                    buffer',
                    on_handle (λ h. record h { cached_file_handle = none })
                        (erase_cached_file s''.handle.path s''),
                  )
                  else (let (again, buffer'', s''') = read_internal nr_bytes location buffer' s'' in
                      elim again [
                        | throw e ↦ (throw e, buffer'', s''')
                        | ok true ↦ (ok tt, buffer'', s''')
                        | ok false ↦ (throw (plain http retry_failed), buffer'', s''')
                      ])
            ]
      ]
