-- ===== src/Http/Read/Refill.antt =====
-- The refill of the read buffer in ReadInternal's loop.
use mathlib.Core.Path.{subst}
use haybarn_httpfs.Base.{
  ℕ, ◌+◌, ◌-◌, ◌*◌, ◌^◌, ◌≤◌, ◌<◌, min, ◌≡◌, refl, sym, ap, ◌∙◌, inr, true, List, arith, length,
  take, drop, length-take, length-replicate, splice, length-splice, take-splice,
}
use haybarn_httpfs.Http.Types.{Exception, Response, ok}
use haybarn_httpfs.Http.Handle.{FileHandle, HttpUtil}
use haybarn_httpfs.Http.Range.{Server}
use haybarn_httpfs.Http.Range.Serves.{ServesFile}
use haybarn_httpfs.Http.Read.{
  adapt_read_buffer_size, remaining, Reading, on_handle, fill_buffer, try_range_request,
  refill_buffer,
}
use haybarn_httpfs.Http.Read.Tried.{view-try_range_request, try_range_request-bytes}
use haybarn_httpfs.Http.Read.Steps.{Going}

-- A read buffer that is made larger loses its bytes, and nothing else changes.
adapt_keeps :
    (offset : ℕ) (h : FileHandle)
    → (length h.read_buffer ≤ length (adapt_read_buffer_size offset h).read_buffer)
      × ((adapt_read_buffer_size offset h).length ≡ h.length)
      × ((adapt_read_buffer_size offset h).cached_file_handle ≡ h.cached_file_handle)
unfolding adapt_read_buffer_size
adapt_keeps offset h = ground (arith, length-replicate {A = ℕ} (length h.read_buffer * 2) 0)

module _ (util : HttpUtil) (get_http_error : Response → Exception) (server : Server) (file : List ℕ)
    (serves : ServesFile file server) (small : length file < 2 ^ 63) (nr_bytes location : ℕ)
    (inside : location + nr_bytes ≤ length file) where
  -- A refilled buffer holds what is left to read.
  pub refill_buffer-Going :
      (rd : Reading)
      → Going file nr_bytes location inside rd
      → rd.to_read
        ≤ min
            (length rd.session.handle.read_buffer)
            (remaining rd.session.handle.length rd.start_offset)
      → (refill_buffer util get_http_error server rd).0 ≡ ok true
      → Going file nr_bytes location inside (refill_buffer util get_http_error server rd).1
        × ((refill_buffer util get_http_error server rd).1.to_read ≡ rd.to_read)
        × (rd.to_read
            ≤ (refill_buffer util get_http_error server rd).1.session.handle.buffer_available)
  unfolding refill_buffer fill_buffer
  refill_buffer-Going rd v enough went =
      let s = on_handle (adapt_read_buffer_size rd.start_offset) rd.session in
      let rb = s.handle.read_buffer in
      let (larger, same_length, same_cached) = adapt_keeps rd.start_offset rd.session.handle in
      let len : ℕ = min (length rb) (remaining s.handle.length rd.start_offset) in
      let bound : len ≤ length file - rd.start_offset =
        omega (arith, same_length, v.buffered.whole, v.next, v.split) in
      let out : List ℕ = take len rb in
      let tried = try_range_request util get_http_error server rd.start_offset out len s in
      let read_all : tried.0 ≡ ok true = ground (arith, went) in
      let (bytes, full) =
        try_range_request-bytes util get_http_error server file rd.start_offset len out s serves
          (omega (arith, bound)) (omega (arith, length-take len rb)) read_all in
      let keeps = view-try_range_request util get_http_error server rd.start_offset len out s in
      let counted : length tried.1 ≡ len = ap length bytes ∙ full in
      let kept_buffer : tried.2.handle.read_buffer ≡ rb = ap (λ w. w.read_buffer) keeps in
      let filled_buffer : take len (splice 0 tried.1 rb) ≡ tried.1 =
        take-splice len 0 tried.1 rb (omega (arith, counted)) (omega arith) in
      let width : rd.start_offset + len - rd.start_offset ≡ len = omega arith in
      let window = ap (λ b. take len (splice 0 tried.1 b)) kept_buffer ∙ filled_buffer ∙ bytes in
      rw (read_all, refill_buffer)
        (
          record {
            buffered = record {
              whole = ap (λ w. w.length) keeps ∙ same_length ∙ v.buffered.whole;
              range_requests =
                  ap (λ w. w.cached_file_handle) keeps ∙ same_cached ∙ v.buffered.range_requests;
              ordered = omega arith;
              fits = omega (
                arith,
                length-splice 0 tried.1 tried.2.handle.read_buffer,
                ap length kept_buffer,
              );
              window =
                  subst
                    (λ k.
                      take k (splice 0 tried.1 tried.2.handle.read_buffer)
                      ≡ take k (drop rd.start_offset file))
                    (sym width) window;
            };
            split = v.split;
            next = v.next;
            sized = v.sized;
            filled = v.filled;
            positioned = inr (omega arith, omega arith);
          },
          refl,
          omega (arith, same_length, larger),
        )
