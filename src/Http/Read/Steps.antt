-- ===== src/Http/Read/Steps.antt =====
-- The steps of ReadInternal's loop: each keeps the read buffer and the caller's buffer right.
use mathlib.Core.Path.{ap₂, subst}
use haybarn_httpfs.Base.{
  ℕ, ◌+◌, ◌-◌, ◌^◌, ◌≤◌, ◌<◌, min, ◌≡◌, refl, sym, ap, ◌∙◌, ◌⊎◌, inl, inr, true, none, List, ◌++◌,
  arith, ltb, Bool-cases, length, take, drop, splice, length-splice, take-splice, take-all,
  drop-drop, take-add, slice-of-window, length-slice,
}
use haybarn_httpfs.Http.Types.{Exception, Response, ok}
use haybarn_httpfs.Http.Handle.{Session, HttpUtil}
use haybarn_httpfs.Http.Range.{Server}
use haybarn_httpfs.Http.Range.Frame.{View, view}
use haybarn_httpfs.Http.Range.Serves.{ServesFile}
use haybarn_httpfs.Http.Read.{
  Reading, copy_buffered, seek_buffer, empty_buffer, begin_reading, try_range_request,
  bypass_buffer,
}
use haybarn_httpfs.Http.Read.Tried.{view-try_range_request, try_range_request-bytes}

-- The window that the handle says is in the read buffer holds bytes of the file.
pub record Buffered (file : List ℕ) (v : View) : Type 0 where
  pub whole : v.length ≡ length file
  pub range_requests : v.cached_file_handle ≡ none
  pub ordered : v.buffer_start ≤ v.buffer_end
  pub fits : v.buffer_end - v.buffer_start ≤ length v.read_buffer
  pub window :
      take (v.buffer_end - v.buffer_start) v.read_buffer
      ≡ take (v.buffer_end - v.buffer_start) (drop v.buffer_start file)

-- A write that goes on with the file's bytes.
splice-fills :
    (file bytes buffer : List ℕ) (offset len location : ℕ)
    → length bytes ≡ len
    → offset + len ≤ length buffer
    → take offset buffer ≡ take offset (drop location file)
    → bytes ≡ take len (drop (location + offset) file)
    → take (offset + len) (splice offset bytes buffer) ≡ take (offset + len) (drop location file)
splice-fills file bytes buffer offset len location counted room filled same =
    take-splice (offset + len) offset bytes buffer (omega arith) room
    ∙ ap₂ (λ l m. l ++ m) filled
        (same ∙ ap (take len) (sym (drop-drop (location + offset) location offset file refl)))
    ∙ sym (take-add (offset + len) offset len (drop location file) refl)

module _ (file : List ℕ) (nr_bytes location : ℕ) (inside : location + nr_bytes ≤ length file) where
  -- In the loop: the front of the caller's buffer is read, and the read buffer stands at what is next.
  pub record Going (rd : Reading) : Type 0 where
    pub buffered : Buffered file (view rd.session)
    pub split : rd.buffer_offset + rd.to_read ≡ nr_bytes
    pub next : rd.start_offset ≡ location + rd.buffer_offset
    pub sized : length rd.buffer ≡ nr_bytes
    pub filled : take rd.buffer_offset rd.buffer ≡ take rd.buffer_offset (drop location file)
    pub positioned :
        (rd.session.handle.buffer_available ≡ 0)
        ⊎ ((rd.session.handle.buffer_start + rd.session.handle.buffer_idx ≡ rd.start_offset)
            × (rd.session.handle.buffer_idx + rd.session.handle.buffer_available
                ≡ rd.session.handle.buffer_end - rd.session.handle.buffer_start))

  pub begin_reading-Going :
      (buffer : List ℕ) (s : Session)
      → Buffered file (view s)
      → length buffer ≡ nr_bytes
      → Going (begin_reading nr_bytes location buffer s)
  unfolding seek_buffer
  begin_reading-Going buffer s v sized = record {
    buffered = record {
      whole = ground (arith, v.whole);
      range_requests = ground (arith, v.range_requests);
      ordered = ground (arith, v.ordered);
      fits = ground (arith, v.fits);
      window = ground (arith, v.window);
    };
    split = omega arith;
    next = omega arith;
    sized = sized;
    filled = refl;
    positioned = ground arith;
  }

  placed :
      (rd : Reading)
      → Going rd
      → 0 < rd.session.handle.buffer_available
      → (rd.session.handle.buffer_start + rd.session.handle.buffer_idx ≡ rd.start_offset)
        × (rd.session.handle.buffer_idx + rd.session.handle.buffer_available
            ≡ rd.session.handle.buffer_end - rd.session.handle.buffer_start)
  placed rd v h = ground (arith, v.positioned)

  -- The bytes that the copy takes out of the read buffer.
  buffered-bytes :
      (rd : Reading) (len : ℕ)
      → Buffered file (view rd.session)
      → rd.session.handle.buffer_start + rd.session.handle.buffer_idx ≡ location + rd.buffer_offset
      → rd.session.handle.buffer_idx + len
        ≤ rd.session.handle.buffer_end - rd.session.handle.buffer_start
      → (take len (drop rd.session.handle.buffer_idx rd.session.handle.read_buffer)
          ≡ take len (drop (location + rd.buffer_offset) file))
        × (length (take len (drop rd.session.handle.buffer_idx rd.session.handle.read_buffer))
            ≡ len)
  buffered-bytes rd len v at within =
      let h = rd.session.handle in
      (
        slice-of-window len h.buffer_idx _ h.read_buffer (drop h.buffer_start file) v.window within
            ∙ ap (take len)
                (drop-drop (location + rd.buffer_offset) h.buffer_start h.buffer_idx file (sym at)),
        length-slice len h.buffer_idx h.read_buffer (omega (arith, v.fits)),
      )

  copied-Going :
      (rd : Reading)
      → Going rd
      → ltb 0 (min rd.session.handle.buffer_available rd.to_read) ≡ true
      → Going (copy_buffered rd)
  unfolding copy_buffered
  copied-Going rd v some_bytes =
      let h = rd.session.handle in
      let len : ℕ = min h.buffer_available rd.to_read in
      let (at, extent) = placed rd v (ground arith) in
      let (same, counted) =
        buffered-bytes rd len v.buffered (at ∙ v.next) (omega (arith, extent)) in
      rw some_bytes (record {
        buffered = record {
          whole = v.buffered.whole;
          range_requests = v.buffered.range_requests;
          ordered = v.buffered.ordered;
          fits = v.buffered.fits;
          window = v.buffered.window;
        };
        split = omega (arith, v.split);
        next = omega (arith, v.next);
        sized = length-splice rd.buffer_offset _ rd.buffer ∙ v.sized;
        filled =
            splice-fills file _ rd.buffer rd.buffer_offset len location counted
              (omega (arith, v.split, v.sized)) v.filled same;
        positioned = inr (omega (arith, at), omega (arith, extent));
      })

  pub copy_buffered-Going :
      (rd : Reading)
      → Going rd
      → Going (copy_buffered rd)
        × (((copy_buffered rd).to_read ≡ 0)
            ⊎ ((copy_buffered rd).session.handle.buffer_available ≡ 0))
  copy_buffered-Going rd v =
      elim (Bool-cases (ltb 0 (min rd.session.handle.buffer_available rd.to_read))) [
        | inl e ↦ (copied-Going rd v e, unfold copy_buffered in ground (arith, e))
        | inr e ↦ (unfold copy_buffered in rw e v, unfold copy_buffered in ground (arith, e))
      ]

module _ (util : HttpUtil) (get_http_error : Response → Exception) (server : Server) (file : List ℕ)
    (serves : ServesFile file server) (small : length file < 2 ^ 63) (nr_bytes location : ℕ)
    (inside : location + nr_bytes ≤ length file) where
  -- A read past the buffer completes the caller's buffer.
  pub bypass_buffer-Going :
      (rd : Reading)
      → Going file nr_bytes location inside rd
      → (bypass_buffer util get_http_error server location rd).0 ≡ ok true
      → ((bypass_buffer util get_http_error server location rd).1.buffer
          ≡ take nr_bytes (drop location file))
        × Buffered file (view (bypass_buffer util get_http_error server location rd).1.session)
  unfolding bypass_buffer empty_buffer
  bypass_buffer-Going rd v went =
      let out : List ℕ = take rd.to_read (drop rd.buffer_offset rd.buffer) in
      let offset : ℕ = location + rd.buffer_offset in
      let tried = try_range_request util get_http_error server offset out rd.to_read rd.session in
      let read_all : tried.0 ≡ ok true = ground (arith, went) in
      let (bytes, full) =
        try_range_request-bytes util get_http_error server file offset rd.to_read out rd.session
          serves (omega (arith, v.split))
          (length-slice rd.to_read rd.buffer_offset rd.buffer (omega (arith, v.split, v.sized)))
          read_all in
      let w : Buffered file (view tried.2) =
        subst (Buffered file)
          (sym (view-try_range_request util get_http_error server offset rd.to_read out rd.session))
          v.buffered in
      let fills =
        splice-fills file tried.1 rd.buffer rd.buffer_offset rd.to_read location
          (ap length bytes ∙ full) (omega (arith, v.split, v.sized)) v.filled bytes in
      rw (read_all, bypass_buffer)
        (
          sym (
                take-all _ _
                  (omega (arith, length-splice rd.buffer_offset tried.1 rd.buffer, v.sized)))
              ∙ subst
                  (λ k.
                    take k (splice rd.buffer_offset tried.1 rd.buffer)
                    ≡ take k (drop location file))
                  v.split fills,
          record {
            whole = w.whole;
            range_requests = w.range_requests;
            ordered = w.ordered;
            fits = w.fits;
            window = w.window;
          },
        )
