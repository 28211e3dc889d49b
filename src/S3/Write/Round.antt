-- ===== src/S3/Write/Round.antt =====
-- One round of the loop of Write on a file that is written from its start.
use mathlib.Core.List.{append-nil}
use haybarn_httpfs.Base.{
  ℕ, zero, suc, ◌+◌, ◌-◌, ◌*◌, ◌/◌, ◌%◌, ◌^◌, ◌≤◌, ◌<◌, min, ◌≡◌, refl, ap, ◌∙◌, false, List, [],
  ◌∷◌, ◌++◌, arith, take, drop, take-all, lookup_number,
}
use haybarn_httpfs.Base
use haybarn_httpfs.Http.Types.{Result, word}
use haybarn_httpfs.S3.Upload.{S3WriteBuffer, S3MultiPartUpload}
use haybarn_httpfs.S3.Upload.Flush.{System}
use haybarn_httpfs.S3.Write.{
  Writing, get_buffer, update_number, write_bytes, with_buffers, counted, flush_if_full, write_part,
  write_round,
}

-- The buffer of a part that is not full yet.
abbrev pub opened : ℕ → List ℕ → S3WriteBuffer
opened part_no bytes = record { part_no = part_no; bytes = bytes; uploading = false }

-- The open buffers: none when the last part is full.
abbrev pub open_parts : ℕ → List ℕ → List (ℕ × S3WriteBuffer)
open_parts part_no [] = []
open_parts part_no (c ∷ bytes) = (part_no, opened part_no (c ∷ bytes)) ∷ []

abbrev pub with_buffer : ℕ → List ℕ → S3MultiPartUpload → S3MultiPartUpload
with_buffer part_no bytes u = record u { write_buffers = (part_no, opened part_no bytes) ∷ [] }

get_buffer-open_parts :
    (part_no : ℕ) (tail : List ℕ) (u : S3MultiPartUpload)
    → u.write_buffers ≡ open_parts part_no tail
    → get_buffer part_no u ≡ (opened part_no tail, with_buffer part_no tail u)
unfolding get_buffer lookup_number
get_buffer-open_parts part_no [] u e = ground (arith, e)
get_buffer-open_parts part_no (c ∷ tail) u e = ground (arith, e)

drop-all {ℓ} : {A : Type ℓ} (n : ℕ) (xs : List A) → Base.length xs ≤ n → drop n xs ≡ []
drop-all zero [] h = refl
drop-all zero (x ∷ xs) h = absurd (omega arith)
drop-all (suc n) [] h = refl
drop-all (suc n) (x ∷ xs) h = drop-all n xs (omega arith)

write_bytes-end :
    (part_no n : ℕ) (tail chunk : List ℕ)
    → n ≡ Base.length tail
    → write_bytes n chunk (opened part_no tail) ≡ opened part_no (tail ++ chunk)
unfolding write_bytes
write_bytes-end part_no n tail chunk e = ap (opened part_no) (
    rw
      (
        take-all n tail (omega arith),
        drop-all (n + Base.length chunk) tail (omega arith),
        append-nil,
      )
      refl)

update_number_self :
    (part_no : ℕ) (b c : S3WriteBuffer)
    → update_number part_no b ((part_no, c) ∷ []) ≡ (part_no, b) ∷ []
unfolding update_number
update_number_self part_no b c = ground arith

part_of : (h ps t : ℕ) → t < ps → (h * ps + t) / ps ≡ h
part_of h ps t l = grind arith

part_fits : (h ps t : ℕ) → h * ps + t < 2 ^ 16 * ps → h < 2 ^ 16
part_fits h ps t l = grind arith

-- The handle with the open part written.
abbrev pub with_part : ℕ → List ℕ → Writing → Writing
with_part part_no bytes w = with_buffers ((part_no, opened part_no bytes) ∷ []) w

abbrev pub room : List ℕ → List ℕ → ℕ → ℕ
room buffer tail part_size = min (Base.length buffer) (part_size - Base.length tail)

module _ (flush : S3WriteBuffer → System → Result (Unit {0}) × System) where
  -- The copy behind what is written of a part.
  write_part-end :
      (buffer tail : List ℕ) (h idx_to_write : ℕ) (w : Writing)
      → idx_to_write ≡ Base.length tail
      → Base.length tail < w.system.upload.part_size
      → w.system.upload.part_size < word
      → write_part flush buffer idx_to_write (opened h tail) (with_part h tail w)
        ≡ counted (room buffer tail w.system.upload.part_size) (
            flush_if_full flush
              (opened h (tail ++ take (room buffer tail w.system.upload.part_size) buffer))
              w.system.upload.part_size
              (with_part h (tail ++ take (room buffer tail w.system.upload.part_size) buffer) w))
  unfolding write_part
  write_part-end buffer tail h idx_to_write w at short small =
      let ps = w.system.upload.part_size in
      let space : (ps + word - idx_to_write) % word ≡ ps - Base.length tail = omega arith in
      let finish = λ (k : ℕ) (b : S3WriteBuffer).
        counted k (
          flush_if_full flush b ps
            (with_buffers (update_number h b ((h, opened h tail) ∷ [])) w)) in
      let n = room buffer tail ps in
      ap
        (λ k.
          finish (min (Base.length buffer) k)
            (write_bytes idx_to_write (take (min (Base.length buffer) k) buffer) (opened h tail)))
        space
      ∙ ap (finish n) (write_bytes-end h idx_to_write tail (take n buffer) at)
      ∙ ap
          (λ l.
            counted n
              (flush_if_full flush (opened h (tail ++ take n buffer)) ps (with_buffers l w)))
          (update_number_self h (opened h (tail ++ take n buffer)) (opened h tail))

  -- The part `h` is written behind `tail`, and flushed when it is full.
  pub write_round-part :
      (buffer tail : List ℕ) (h curr_location : ℕ) (w : Writing)
      → w.system.upload.write_buffers ≡ open_parts h tail
      → curr_location ≡ h * w.system.upload.part_size + Base.length tail
      → Base.length tail < w.system.upload.part_size
      → curr_location < 2 ^ 16 * w.system.upload.part_size
      → 2 ^ 16 * w.system.upload.part_size < word
      → write_round flush buffer curr_location w
        ≡ counted (room buffer tail w.system.upload.part_size) (
            flush_if_full flush
              (opened h (tail ++ take (room buffer tail w.system.upload.part_size) buffer))
              w.system.upload.part_size
              (with_part h (tail ++ take (room buffer tail w.system.upload.part_size) buffer) w))
  unfolding write_round
  write_round-part buffer tail h curr_location w buffers at short fits small =
      let ps = w.system.upload.part_size in
      let idx : (curr_location / ps) % 2 ^ 16 ≡ h =
        let quotient : curr_location / ps ≡ h = rw at (part_of h ps (Base.length tail) short) in
        let fitting = part_fits h ps (Base.length tail) (rw (← at) fits) in omega arith in
      let buffer_of =
        ap (λ k. get_buffer k w.system.upload) idx
        ∙ get_buffer-open_parts h tail w.system.upload buffers in
      ap
        (λ p.
          write_part flush buffer ((curr_location + word - p.0.part_no * ps) % word) p.0
            (record w { system = record w.system { upload = p.1 } }))
        buffer_of
      ∙ write_part-end buffer tail h ((curr_location + word - h * ps) % word) w (omega arith) short
          (omega arith)
