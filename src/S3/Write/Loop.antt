-- ===== src/S3/Write/Loop.antt =====
-- The loop of Write, round by round.
use mathlib.Core.Path.{subst}
use mathlib.Core.List.{append-nil, append_assoc}
use haybarn_httpfs.Base.{
  ℕ, zero, suc, ◌+◌, ◌*◌, ◌^◌, ◌≤◌, ◌<◌, ◌≡◌, refl, sym, ap, ◌∙◌, ◌⊎◌, inl, inr, true, List, [],
  ◌∷◌, ◌++◌, arith, ltb, ◌==◌, ltb→lt, Bool-cases, length-append, take, drop, take-append-drop,
  length-take, length-drop,
}
use haybarn_httpfs.Base
use haybarn_httpfs.Http.Types.{Result, ok, word, Result-cases}
use haybarn_httpfs.S3.Upload.{S3WriteBuffer}
use haybarn_httpfs.S3.Upload.Flush.{System}
use haybarn_httpfs.S3.Write.{Writing, write_round, write_loop, write}
use haybarn_httpfs.S3.Write.Round.{opened, with_part, room, write_round-part}
use haybarn_httpfs.S3.Write.Parts.{
  all_bytes, length-all_bytes, IsWritten, erase_number_self, Flushes, grown, open-IsWritten,
  full-IsWritten, IsRound, IsThrown, IsOutcome, written, thrown, ended, ended_open, ended_full,
  ended_thrown,
}

module _ (flush : S3WriteBuffer → System → Result (Unit {0}) × System)
    (flushes : Flushes flush) where
  -- A round whose part stays open.
  IsRound-open :
      (buffer content tail chunk : List ℕ) (w : Writing) (r : Result ℕ × Writing) (n : ℕ)
      → IsWritten content tail w
      → chunk ≡ take n buffer
      → n ≡ Base.length chunk
      → 0 < n
      → n ≤ Base.length buffer
      → Base.length (tail ++ chunk) < w.system.upload.part_size
      → r ≡ ended flush n (Base.length w.handed) (tail ++ chunk) w
      → IsRound buffer content w r
  IsRound-open buffer content tail chunk w r n v c l some_bytes within below e = record {
    count_of = n;
    tail = tail ++ chunk;
    after = grown (with_part (Base.length w.handed) (tail ++ chunk) w) n;
    result = e ∙ ended_open flush n (Base.length w.handed) (tail ++ chunk) w below;
    some_bytes = some_bytes;
    within = within;
    written = rw (← c, l) (open-IsWritten content tail chunk w v (omega arith) below);
    same_size = refl;
    advanced = refl;
  }

  -- A round that fills its part.
  IsRound-full :
      (buffer content tail chunk : List ℕ) (w : Writing) (r : Result ℕ × Writing) (n : ℕ)
      → IsWritten content tail w
      → chunk ≡ take n buffer
      → n ≡ Base.length chunk
      → 0 < n
      → n ≤ Base.length buffer
      → Base.length (tail ++ chunk) ≡ w.system.upload.part_size
      → r ≡ ended flush n (Base.length w.handed) (tail ++ chunk) w
      → IsRound buffer content w r ⊎ IsThrown flush r.0
  IsRound-full buffer content tail chunk w r n v c l some_bytes within full e =
      let h = Base.length w.handed in
      let b = opened h (tail ++ chunk) in
      let s = (with_part h (tail ++ chunk) w).system in
      let positive : 0 < Base.length (tail ++ chunk) = omega (arith, length-append tail chunk) in
      elim (Result-cases (flush b s).0) [
        | inr (x, went) ↦ inr (record {
          thrown = x;
          buffer = b;
          system = s;
          by_flush = went;
          by_write = ap (λ q. q.0) e ∙ ended_thrown flush n h (tail ++ chunk) w x full went;
        })
        | inl (tt, went) ↦
            let (closed, same) = flushes b s positive refl went in
            let s' = (flush b s).1 in
            inl (record {
              count_of = n;
              tail = [];
              after = grown (record w { system = s'; handed = w.handed ++ b ∷ [] }) n;
              result = e ∙ ended_full flush n h (tail ++ chunk) w full went;
              some_bytes = some_bytes;
              within = within;
              written =
                  rw (← c, l)
                    (full-IsWritten content tail chunk w s' v full (omega arith)
                      (closed ∙ erase_number_self h b) same);
              same_size = same;
              advanced = refl;
            })
      ]

  write_round-IsRound :
      (buffer content tail : List ℕ) (curr_location : ℕ) (w : Writing)
      → IsWritten content tail w
      → 0 < Base.length buffer
      → curr_location ≡ w.file_offset
      → curr_location < 2 ^ 16 * w.system.upload.part_size
      → 2 ^ 16 * w.system.upload.part_size < word
      → IsRound buffer content w (write_round flush buffer curr_location w)
        ⊎ IsThrown flush (write_round flush buffer curr_location w).0
  write_round-IsRound buffer content tail curr_location w v some_bytes at fits small =
      let ps = w.system.upload.part_size in
      let h = Base.length w.handed in
      let n = room buffer tail ps in
      let chunk = take n buffer in
      let whole = length-all_bytes ps 0 w.handed v.parts in
      let position : curr_location ≡ h * ps + Base.length tail = omega (
        arith,
        at,
        v.at_end,
        ap Base.length v.content_of,
        length-append (all_bytes w.handed) tail,
        whole,
      ) in
      let part =
        write_round-part flush buffer tail h curr_location w v.buffers position v.short fits
          small in
      let size : n ≡ Base.length chunk = omega (arith, length-take n buffer) in
      let total = length-append tail chunk in
      elim (Bool-cases (ltb (Base.length (tail ++ chunk)) ps)) [
        | inl below ↦ inl (
            IsRound-open buffer content tail chunk w _ n v refl size (omega (arith, v.short))
              (omega arith) (ltb→lt _ _ below) part)
        | inr above ↦
            let full : Base.length (tail ++ chunk) ≡ ps = ground (arith, total, size, v.short) in
            IsRound-full buffer content tail chunk w _ n v refl size (omega (arith, v.short))
              (omega arith) full part
      ]

  write_loop-round :
      (fuel : ℕ) (c : ℕ) (rest : List ℕ) (curr_location : ℕ) (w w' : Writing) (n : ℕ)
      → curr_location ≡ w.file_offset
      → write_round flush (c ∷ rest) curr_location w ≡ (ok n, w')
      → write_loop flush (suc fuel) (c ∷ rest) curr_location w
        ≡ write_loop flush fuel (drop n (c ∷ rest)) (curr_location + n) w'
  unfolding write_loop
  write_loop-round fuel c rest curr_location w w' n at e =
      let sequential : (curr_location == w.file_offset) ≡ true = ground arith in
      rw (sequential, e, write_loop)
        (ap (λ q. write_loop flush fuel (drop n (c ∷ rest)) (curr_location + n) q.1) e)

  write_loop-IsThrown :
      (fuel : ℕ) (c : ℕ) (rest : List ℕ) (curr_location : ℕ) (w : Writing)
      → curr_location ≡ w.file_offset
      → IsThrown flush (write_round flush (c ∷ rest) curr_location w).0
      → IsThrown flush (write_loop flush (suc fuel) (c ∷ rest) curr_location w).0
  unfolding write_loop
  write_loop-IsThrown fuel c rest curr_location w at t =
      let sequential : (curr_location == w.file_offset) ≡ true = ground arith in
      record {
        thrown = t.thrown;
        buffer = t.buffer;
        system = t.system;
        by_flush = t.by_flush;
        by_write = rw (sequential, t.by_write, write_loop) refl;
      }

  write_loop-IsOutcome :
      (fuel : ℕ) (buffer content tail : List ℕ) (curr_location : ℕ) (w : Writing)
      → IsWritten content tail w
      → Base.length buffer < fuel
      → curr_location ≡ w.file_offset
      → curr_location + Base.length buffer ≤ 2 ^ 16 * w.system.upload.part_size
      → 2 ^ 16 * w.system.upload.part_size < word
      → IsOutcome flush (content ++ buffer) (write_loop flush fuel buffer curr_location w)
  unfolding write_loop
  write_loop-IsOutcome zero buffer content tail curr_location w v enough at fits small =
      absurd (omega arith)
  write_loop-IsOutcome (suc fuel) [] content tail curr_location w v enough at fits small =
      written tail refl (subst (λ l. IsWritten l tail w) (sym (append-nil content)) v)
  write_loop-IsOutcome (suc fuel) (c ∷ rest) content tail curr_location w v enough at fits small =
      elim (write_round-IsRound (c ∷ rest) content tail curr_location w v (omega arith) at
        (omega arith) small) [
          | inr t ↦ thrown (write_loop-IsThrown fuel c rest curr_location w at t)
          | inl r ↦
              let left = length-drop r.count_of (c ∷ rest) in
              let more =
                write_loop-IsOutcome fuel (drop r.count_of (c ∷ rest))
                  (content ++ take r.count_of (c ∷ rest)) r.tail (curr_location + r.count_of)
                  r.after r.written (omega (arith, r.some_bytes)) (omega (arith, r.advanced))
                  (omega (arith, r.same_size, r.within)) (omega (arith, r.same_size)) in
              let all : (content ++ take r.count_of (c ∷ rest)) ++ drop r.count_of (c ∷ rest)
                  ≡ content ++ (c ∷ rest) =
                append_assoc content (take r.count_of (c ∷ rest)) (drop r.count_of (c ∷ rest))
                ∙ ap (λ l. content ++ l) (take-append-drop r.count_of (c ∷ rest)) in
              subst
                (λ l. IsOutcome flush l (write_loop flush (suc fuel) (c ∷ rest) curr_location w))
                all
                (subst
                  (λ q.
                    IsOutcome flush
                      ((content ++ take r.count_of (c ∷ rest)) ++ drop r.count_of (c ∷ rest)) q)
                  (sym
                    (write_loop-round fuel c rest curr_location w r.after r.count_of at r.result))
                  more)
        ]

  -- Write on a file that was written from its start, at its end, while it stays below 2^16 parts. The
  -- loop ends. Either it succeeds, and then the full parts that were handed to FlushBuffer, numbered
  -- from 0 on, and behind them the open buffer hold exactly the bytes written so far and then those of
  -- this call; or it throws what a call of FlushBuffer threw.
  pub write-IsOutcome :
      (buffer content tail : List ℕ) (location : ℕ) (w : Writing)
      → IsWritten content tail w
      → w.open_for_writing ≡ true
      → location ≡ w.file_offset
      → location + Base.length buffer ≤ 2 ^ 16 * w.system.upload.part_size
      → 2 ^ 16 * w.system.upload.part_size < word
      → IsOutcome flush (content ++ buffer) (write flush buffer location w)
  write-IsOutcome buffer content tail location w v writable at fits small =
      let looped : write flush buffer location w
          ≡ write_loop flush (suc (Base.length buffer)) buffer location w =
        unfold write in ground (arith, writable) in
      subst (λ q. IsOutcome flush (content ++ buffer) q) (sym looped)
        (write_loop-IsOutcome (suc (Base.length buffer)) buffer content tail location w v
          (omega arith) at fits small)
