-- ===== src/Http/Read/Rounds.antt =====
-- The rounds of ReadInternal's loop, put together.
use mathlib.Core.Path.{subst}
use native.Mathlib.Decide.{dec_lt}
use haybarn_httpfs.Base.{
  ℕ, suc, ◌+◌, ◌^◌, ◌≤◌, ◌<◌, min, ◌≡◌, refl, sym, ap, ◌∙◌, ◌≢◌, ◌⊎◌, inl, inr, Bool, true, false,
  List, arith, Bool-cases, length, take, drop, take-all,
}
use haybarn_httpfs.Http.Types.{
  internal, out_of_fuel, Exception, Response, Result, ok, throw, plain, Result-cases,
}
use haybarn_httpfs.Http.Handle.{HttpUtil}
use haybarn_httpfs.Http.Range.{Server}
use haybarn_httpfs.Http.Range.Frame.{view}
use haybarn_httpfs.Http.Range.Serves.{ServesFile}
use haybarn_httpfs.Http.Read.{
  remaining, Reading, copy_buffered, bypass_buffer, refill_buffer, read_loop,
}
use haybarn_httpfs.Http.Read.Steps.{Buffered, Going, copy_buffered-Going, bypass_buffer-Going}
use haybarn_httpfs.Http.Read.Refill.{refill_buffer-Going}

Result-true : (r : Result Bool) → (r ≡ ok true) ⊎ (r ≢ ok true)
Result-true (ok true) = inl refl
Result-true (ok false) = inr (λ e. cc)
Result-true (throw x) = inr (λ e. cc)

module _ (util : HttpUtil) (get_http_error : Response → Exception) (server : Server) (file : List ℕ)
    (serves : ServesFile file server) (small : length file < 2 ^ 63) (nr_bytes location : ℕ)
    (inside : location + nr_bytes ≤ length file) where
  -- `spent` is the result that stands for spent fuel.
  abbrev pub loop : Result Bool → ℕ → Reading → Result Bool × Reading
  loop spent fuel rd = read_loop util get_http_error server spent fuel location rd

  abbrev out : Result Bool
  out = throw (plain internal out_of_fuel)

  -- The loop ended with the caller's buffer read and the read buffer right.
  abbrev pub IsRead : Result Bool × Reading → Type 0
  IsRead (result, rd) =
      result ≡ ok true
      → (rd.buffer ≡ take nr_bytes (drop location file)) × Buffered file (view rd.session)

  abbrev pub G : Reading → Type 0
  G rd = Going file nr_bytes location inside rd

  -- Nothing is left to read.
  loop_done :
      (spent : Result Bool) (fuel : ℕ) (rd : Reading)
      → G rd
      → rd.to_read ≡ 0
      → IsRead (loop spent (suc fuel) rd) × (loop spent (suc fuel) rd ≡ (ok true, rd))
  unfolding read_loop
  loop_done spent fuel rd v e =
      let ends : loop spent (suc fuel) rd ≡ (ok true, rd) = ground (arith, e) in
      let all : rd.buffer_offset ≡ nr_bytes = omega (arith, v.split) in
      (
        λ went. rw ends (
          sym (take-all nr_bytes rd.buffer (omega (arith, v.sized)))
              ∙ subst (λ k. take k rd.buffer ≡ take k (drop location file)) all v.filled,
          v.buffered,
        ),
        ends,
      )

  abbrev room : Reading → ℕ
  room rd =
      min (length rd.session.handle.read_buffer)
        (remaining rd.session.handle.length rd.start_offset)

  abbrev refilled : Reading → Result Bool × Reading
  refilled rd = refill_buffer util get_http_error server rd

  loop-copied :
      (spent : Result Bool) (fuel : ℕ) (rd : Reading)
      → 0 < rd.to_read
      → (copy_buffered rd).to_read ≡ 0
      → loop spent (suc fuel) rd ≡ loop spent fuel (copy_buffered rd)
  unfolding read_loop
  loop-copied spent fuel rd more e = ground (arith, e)

  loop-bypass :
      (spent : Result Bool) (fuel : ℕ) (rd : Reading)
      → 0 < rd.to_read
      → 0 < (copy_buffered rd).to_read
      → (copy_buffered rd).session.handle.buffer_available ≡ 0
      → room (copy_buffered rd) < (copy_buffered rd).to_read
      → loop spent (suc fuel) rd
        ≡ bypass_buffer util get_http_error server location (copy_buffered rd)
  unfolding read_loop
  loop-bypass spent fuel rd more left drained big = ground arith

  loop-refilled :
      (spent : Result Bool) (fuel : ℕ) (rd : Reading)
      → 0 < rd.to_read
      → 0 < (copy_buffered rd).to_read
      → (copy_buffered rd).session.handle.buffer_available ≡ 0
      → (copy_buffered rd).to_read ≤ room (copy_buffered rd)
      → (refilled (copy_buffered rd)).0 ≡ ok true
      → loop spent (suc fuel) rd ≡ loop spent fuel (refilled (copy_buffered rd)).1
  unfolding read_loop
  loop-refilled spent fuel rd more left drained fits went = ground arith

  loop-refused :
      (spent : Result Bool) (fuel : ℕ) (rd : Reading)
      → 0 < rd.to_read
      → 0 < (copy_buffered rd).to_read
      → (copy_buffered rd).session.handle.buffer_available ≡ 0
      → (copy_buffered rd).to_read ≤ room (copy_buffered rd)
      → (refilled (copy_buffered rd)).0 ≢ ok true
      → loop spent (suc fuel) rd ≡ refilled (copy_buffered rd)
  unfolding read_loop
  loop-refused spent fuel rd more left drained fits failed =
      elim (Result-cases (refilled (copy_buffered rd)).0) [
        | inr (x, e) ↦ ground (arith, e)
        | inl (answer, e) ↦ elim (Bool-cases answer) [
          | inl b ↦ absurd (failed (e ∙ ap ok b))
          | inr b ↦ ground (arith, e, b)
        ]
      ]

  -- A filled buffer serves the rest in one round.
  loop_ready :
      (spent : Result Bool) (fuel : ℕ) (rd : Reading)
      → G rd
      → rd.to_read ≤ rd.session.handle.buffer_available
      → IsRead (loop spent (suc (suc fuel)) rd) × (loop spent (suc (suc fuel)) rd ≡ loop out 2 rd)
  loop_ready spent fuel rd v enough = elim (dec_lt 0 rd.to_read) [
    | no none_left ↦
        let (right, ends) = loop_done spent (suc fuel) rd v (omega arith) in
        let (_, ends') = loop_done out 1 rd v (omega arith) in (right, ends ∙ sym ends')
    | yes more ↦
        let (w, _) = copy_buffered-Going file nr_bytes location inside rd v in
        let all_copied : (copy_buffered rd).to_read ≡ 0 = unfold copy_buffered in ground arith in
        let (right, ends) = loop_done spent fuel (copy_buffered rd) w all_copied in
        let (_, ends') = loop_done out 0 (copy_buffered rd) w all_copied in
        let step = loop-copied spent (suc fuel) rd more all_copied in
        (
          subst IsRead (sym step) right,
          step ∙ ends ∙ sym ends' ∙ sym (loop-copied out 1 rd more all_copied),
        )
  ]

  -- After the copy: more to read, and the buffer is drained.
  loop_drained :
      (spent : Result Bool) (fuel : ℕ) (rd : Reading)
      → G (copy_buffered rd)
      → 0 < rd.to_read
      → 0 < (copy_buffered rd).to_read
      → (copy_buffered rd).session.handle.buffer_available ≡ 0
      → IsRead (loop spent (suc (suc (suc fuel))) rd)
        × (loop spent (suc (suc (suc fuel))) rd ≡ loop out 3 rd)
  loop_drained spent fuel rd w more left drained =
      elim (dec_lt (room (copy_buffered rd)) (copy_buffered rd).to_read) [
        | yes big ↦
            let step = loop-bypass spent (suc (suc fuel)) rd more left drained big in
            (
              subst IsRead (sym step) (
                  bypass_buffer-Going util get_http_error server file serves small nr_bytes location
                    inside (copy_buffered rd) w),
              step ∙ sym (loop-bypass out 2 rd more left drained big),
            )
        | no small_enough ↦ elim (Result-true (refilled (copy_buffered rd)).0) [
          | inr failed ↦
              let step =
                loop-refused spent (suc (suc fuel)) rd more left drained (omega arith) failed in
              (
                subst IsRead (sym step) (λ went. absurd (failed went)),
                step ∙ sym (loop-refused out 2 rd more left drained (omega arith) failed),
              )
          | inl went ↦
              let (x, same, enough) =
                refill_buffer-Going util get_http_error server file serves small nr_bytes location
                  inside (copy_buffered rd) w (omega arith) went in
              let step =
                loop-refilled spent (suc (suc fuel)) rd more left drained (omega arith) went in
              let (right, ends) =
                loop_ready spent fuel (refilled (copy_buffered rd)).1 x
                  (omega (arith, same, enough)) in
              (
                subst IsRead (sym step) right,
                step ∙ ends ∙ sym (loop-refilled out 2 rd more left drained (omega arith) went),
              )
        ]
      ]

  -- Three rounds are enough, from any state of the buffer.
  pub loop_reads :
      (spent : Result Bool) (fuel : ℕ) (rd : Reading)
      → G rd
      → IsRead (loop spent (suc (suc (suc fuel))) rd)
        × (loop spent (suc (suc (suc fuel))) rd ≡ loop out 3 rd)
  loop_reads spent fuel rd v = elim (dec_lt 0 rd.to_read) [
    | no none_left ↦
        let (right, ends) = loop_done spent (suc (suc fuel)) rd v (omega arith) in
        let (_, ends') = loop_done out 2 rd v (omega arith) in (right, ends ∙ sym ends')
    | yes more ↦
        let (w, either) = copy_buffered-Going file nr_bytes location inside rd v in
        elim (dec_lt 0 (copy_buffered rd).to_read) [
          | yes left ↦ loop_drained spent fuel rd w more left (ground (arith, either))
          | no none_left ↦
              let all_copied : (copy_buffered rd).to_read ≡ 0 = omega arith in
              let (right, ends) = loop_done spent (suc fuel) (copy_buffered rd) w all_copied in
              let (_, ends') = loop_done out 1 (copy_buffered rd) w all_copied in
              let step = loop-copied spent (suc (suc fuel)) rd more all_copied in
              (
                subst IsRead (sym step) right,
                step ∙ ends ∙ sym ends' ∙ sym (loop-copied out 2 rd more all_copied),
              )
        ]
  ]
