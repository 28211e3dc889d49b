-- ===== src/Http/Read/Exact.antt =====
-- ReadInternal: a read that succeeds returns the bytes of the file, and its loop ends in three rounds.
use mathlib.Core.Path.{subst}
use haybarn_httpfs.Base.{
  ℕ, suc, ◌+◌, ◌^◌, ◌≤◌, ◌<◌, ◌≡◌, refl, sym, ap, ◌∙◌, inl, inr, Bool, true, false, ◌&&◌, List,
  arith, ltb, Bool-cases, length, take, drop,
}
use haybarn_httpfs.Http.Types.{internal, out_of_fuel, Exception, Response, Result, ok, throw, plain}
use haybarn_httpfs.Http.Handle.{Session, skip_buffer, HttpUtil}
use haybarn_httpfs.Http.Range.{Server}
use haybarn_httpfs.Http.Range.Frame.{view}
use haybarn_httpfs.Http.Range.Serves.{ServesFile}
use haybarn_httpfs.Http.Read.{
  set_file_offset, empty_buffer, begin_reading, try_range_request, read_loop, read_direct,
  read_buffered, read_internal,
}
use haybarn_httpfs.Http.Read.Tried.{view-try_range_request, try_range_request-bytes}
use haybarn_httpfs.Http.Read.Steps.{Buffered, begin_reading-Going}
use haybarn_httpfs.Http.Read.Rounds.{loop_reads}

module _ (util : HttpUtil) (get_http_error : Response → Exception) (server : Server) (file : List ℕ)
    (serves : ServesFile file server) (small : length file < 2 ^ 63) (nr_bytes location : ℕ)
    (inside : location + nr_bytes ≤ length file) (buffer : List ℕ) (s : Session)
    (v : Buffered file (view s)) (sized : length buffer ≡ nr_bytes) where
  -- After a read: the bytes of the file, the offset behind them, and a read buffer that is right for
  -- the next read.
  abbrev pub IsExact : Result Bool × List ℕ × Session → Type 0
  IsExact outcome =
      (outcome.1 ≡ take nr_bytes (drop location file))
      × (outcome.2.handle.file_offset ≡ location + nr_bytes)
      × Buffered file (view outcome.2)

  read_direct-IsExact :
      0 < nr_bytes
      → (read_direct util get_http_error server nr_bytes location buffer s).0 ≡ ok true
      → IsExact (read_direct util get_http_error server nr_bytes location buffer s)
  unfolding read_direct empty_buffer set_file_offset
  read_direct-IsExact some_bytes went =
      let tried = try_range_request util get_http_error server location buffer nr_bytes s in
      let read_all : tried.0 ≡ ok true = ground (arith, went) in
      let (bytes, _) =
        try_range_request-bytes util get_http_error server file location nr_bytes buffer s serves
          (omega arith) sized read_all in
      let w : Buffered file (view tried.2) =
        subst (Buffered file)
          (sym (view-try_range_request util get_http_error server location nr_bytes buffer s)) v in
      rw (read_all, read_direct)
        (
          bytes,
          refl,
          record {
            whole = w.whole;
            range_requests = w.range_requests;
            ordered = w.ordered;
            fits = w.fits;
            window = w.window;
          },
        )

  read_buffered-IsExact :
      (read_buffered util get_http_error server nr_bytes location buffer s).0 ≡ ok true
      → IsExact (read_buffered util get_http_error server nr_bytes location buffer s)
  unfolding read_buffered set_file_offset
  read_buffered-IsExact went =
      let rd = begin_reading nr_bytes location buffer s in
      let start = begin_reading-Going file nr_bytes location inside buffer s v sized in
      let (right, _) =
        loop_reads util get_http_error server file serves small nr_bytes location inside
          (throw (plain internal out_of_fuel)) 0 rd start in
      let read_all : (read_loop util get_http_error server (throw (plain internal out_of_fuel)) 3
            location rd).0
          ≡ ok true =
        ground (arith, went) in
      let (bytes, w) = right read_all in
      rw (read_all, read_buffered)
        (
          bytes,
          refl,
          record {
            whole = w.whole;
            range_requests = w.range_requests;
            ordered = w.ordered;
            fits = w.fits;
            window = w.window;
          },
        )

  some_bytes : (skip_buffer s.handle && ltb 0 nr_bytes) ≡ true → 0 < nr_bytes
  some_bytes e = ground (arith, e)

  read_internal-direct :
      (skip_buffer s.handle && ltb 0 nr_bytes) ≡ true
      → read_internal util get_http_error server nr_bytes location buffer s
        ≡ read_direct util get_http_error server nr_bytes location buffer s
  unfolding read_internal
  read_internal-direct e = ground (arith, v.range_requests, e)

  read_internal-buffered :
      (skip_buffer s.handle && ltb 0 nr_bytes) ≡ false
      → read_internal util get_http_error server nr_bytes location buffer s
        ≡ read_buffered util get_http_error server nr_bytes location buffer s
  unfolding read_internal
  read_internal-buffered e = ground (arith, v.range_requests, e)

  -- A read inside the file that returns true has put exactly the file's bytes from `location` on into
  -- the caller's buffer, has moved the offset behind them, and has left a read buffer whose window
  -- holds bytes of the file, whether the read was served by the buffer, by a refill, past the buffer
  -- or without it. The window held bytes of the file before, the file is not downloaded in full, and
  -- the server sends bytes of the file from the requested offset on, perhaps too few.
  pub read_internal-IsExact :
      (read_internal util get_http_error server nr_bytes location buffer s).0 ≡ ok true
      → IsExact (read_internal util get_http_error server nr_bytes location buffer s)
  read_internal-IsExact went = elim (Bool-cases (skip_buffer s.handle && ltb 0 nr_bytes)) [
    | inl e ↦
        let step = read_internal-direct e in
        subst IsExact (sym step)
          (read_direct-IsExact (some_bytes e) (ap (λ o. o.0) (sym step) ∙ went))
    | inr e ↦
        let step = read_internal-buffered e in
        subst IsExact (sym step) (read_buffered-IsExact (ap (λ o. o.0) (sym step) ∙ went))
  ]

  -- The loop of a buffered read ends within three rounds: with fuel for three rounds or more, its
  -- result and state are those of the model's fuel, whatever stands for spent fuel. The read is inside
  -- the file, whose size is below 2 ^ 63, the window of the read buffer held bytes of the file before,
  -- the file is not downloaded in full, and the server sends bytes of the file from the requested
  -- offset on, perhaps too few.
  pub read_loop-three_rounds :
      (spent : Result Bool) (fuel : ℕ)
      → read_loop util get_http_error server spent
          (suc (suc (suc fuel)))
          location
          (begin_reading nr_bytes location buffer s)
        ≡ read_loop util get_http_error server
            (throw (plain internal out_of_fuel))
            3
            location
            (begin_reading nr_bytes location buffer s)
  read_loop-three_rounds spent fuel =
      (loop_reads util get_http_error server file serves small nr_bytes location inside spent fuel
        (begin_reading nr_bytes location buffer s)
        (begin_reading-Going file nr_bytes location inside buffer s v sized)).1
