-- ===== src/S3/Write/Parts.antt =====
-- What Write makes of the bytes of a file: the parts that it hands over, and the rest in an open buffer.
use mathlib.Core.Path.{subst}
use mathlib.Core.List.{append-nil, append_assoc}
use haybarn_httpfs.Base.{
  ℕ, ◌+◌, ◌*◌, ◌≤◌, ◌<◌, ◌≡◌, refl, sym, ap, ◌∙◌, true, false, List, [], ◌∷◌, ◌++◌, arith, leb,
  length-append, take, erase_number,
}
use haybarn_httpfs.Base
use haybarn_httpfs.Http.Types.{Exception, Result, ok, throw}
use haybarn_httpfs.S3.Upload.{S3WriteBuffer}
use haybarn_httpfs.S3.Upload.Flush.{System}
use haybarn_httpfs.S3.Write.{Writing, counted, flush_if_full}
use haybarn_httpfs.S3.Write.Round.{opened, open_parts, with_part}

-- Full parts, numbered from `k` on.
abbrev pub AreParts : ℕ → ℕ → List S3WriteBuffer → Type 0
AreParts part_size k [] = Unit
AreParts part_size k (b ∷ bs) =
    (b.part_no ≡ k) × (Base.length b.bytes ≡ part_size) × AreParts part_size (k + 1) bs

abbrev pub all_bytes : List S3WriteBuffer → List ℕ
all_bytes [] = []
all_bytes (b ∷ bs) = b.bytes ++ all_bytes bs

AreParts-append :
    (part_size k : ℕ) (bs : List S3WriteBuffer) (b : S3WriteBuffer)
    → AreParts part_size k bs
    → b.part_no ≡ k + Base.length bs
    → Base.length b.bytes ≡ part_size
    → AreParts part_size k (bs ++ b ∷ [])
AreParts-append part_size k [] b a e f = (omega arith, f, tt)
AreParts-append part_size k (c ∷ bs) b (n, l, a) e f =
    (n, l, AreParts-append part_size (k + 1) bs b a (omega arith) f)

all_bytes-append :
    (bs : List S3WriteBuffer) (b : S3WriteBuffer)
    → all_bytes (bs ++ b ∷ []) ≡ all_bytes bs ++ b.bytes
all_bytes-append [] b = append-nil b.bytes
all_bytes-append (c ∷ bs) b =
    ap (λ l. c.bytes ++ l) (all_bytes-append bs b)
    ∙ sym (append_assoc c.bytes (all_bytes bs) b.bytes)

pub length-all_bytes :
    (part_size k : ℕ) (bs : List S3WriteBuffer)
    → AreParts part_size k bs
    → Base.length (all_bytes bs) ≡ Base.length bs * part_size
length-all_bytes part_size k [] a = omega arith
length-all_bytes part_size k (b ∷ bs) (n, l, a) =
    let rest = length-all_bytes part_size (k + 1) bs a in
    let whole = length-append b.bytes (all_bytes bs) in grind arith

open_parts-filled : (h : ℕ) (l : List ℕ) → 0 < Base.length l → open_parts h l ≡ (h, opened h l) ∷ []
open_parts-filled h [] p = absurd (omega arith)
open_parts-filled h (c ∷ l) p = refl

-- A file that was written from its start: `content` all its bytes, `tail` those of the open part.
pub record IsWritten (content tail : List ℕ) (w : Writing) : Type 0 where
  pub parts : AreParts w.system.upload.part_size 0 w.handed
  pub content_of : content ≡ all_bytes w.handed ++ tail
  pub short : Base.length tail < w.system.upload.part_size
  pub at_end : w.file_offset ≡ Base.length content
  pub buffers : w.system.upload.write_buffers ≡ open_parts (Base.length w.handed) tail

pub erase_number_self : (k : ℕ) (b : S3WriteBuffer) → erase_number k ((k, b) ∷ []) ≡ []
unfolding erase_number
erase_number_self k b = ground arith

-- A flush that does not throw takes its buffer out of the open ones, and leaves the part size.
abbrev pub Flushes : (S3WriteBuffer → System → Result (Unit {0}) × System) → Type 0
Flushes flush =
    (b : S3WriteBuffer) (s : System)
    → 0 < Base.length b.bytes
    → b.uploading ≡ false
    → (flush b s).0 ≡ ok tt
    → ((flush b s).1.upload.write_buffers ≡ erase_number b.part_no s.upload.write_buffers)
      × ((flush b s).1.upload.part_size ≡ s.upload.part_size)

abbrev pub grown : Writing → ℕ → Writing
grown w n = record w { file_offset = w.file_offset + n; length = w.length + n }

pub open-IsWritten :
    (content tail chunk : List ℕ) (w : Writing)
    → IsWritten content tail w
    → 0 < Base.length chunk
    → Base.length (tail ++ chunk) < w.system.upload.part_size
    → IsWritten
        (content ++ chunk)
        (tail ++ chunk)
        (grown (with_part (Base.length w.handed) (tail ++ chunk) w) (Base.length chunk))
open-IsWritten content tail chunk w v some_bytes below = record {
  parts = v.parts;
  content_of = ap (λ l. l ++ chunk) v.content_of ∙ append_assoc (all_bytes w.handed) tail chunk;
  short = below;
  at_end = omega (arith, v.at_end, length-append content chunk);
  buffers = sym (
      open_parts-filled (Base.length w.handed) (tail ++ chunk)
        (omega (arith, length-append tail chunk)));
}

pub full-IsWritten :
    (content tail chunk : List ℕ) (w : Writing) (s : System)
    → IsWritten content tail w
    → Base.length (tail ++ chunk) ≡ w.system.upload.part_size
    → 0 < w.system.upload.part_size
    → s.upload.write_buffers ≡ []
    → s.upload.part_size ≡ w.system.upload.part_size
    → IsWritten (content ++ chunk) [] (
        grown
          (record w {
            system = s;
            handed = w.handed ++ opened (Base.length w.handed) (tail ++ chunk) ∷ [];
          })
          (Base.length chunk))
full-IsWritten content tail chunk w s v full positive closed same =
    let b = opened (Base.length w.handed) (tail ++ chunk) in
    let parts = AreParts-append w.system.upload.part_size 0 w.handed b v.parts (omega arith) full in
    record {
      parts = subst (λ k. AreParts k 0 (w.handed ++ b ∷ [])) (sym same) parts;
      content_of =
          ap (λ l. l ++ chunk) v.content_of
          ∙ append_assoc (all_bytes w.handed) tail chunk
          ∙ sym (append-nil _ ∙ all_bytes-append w.handed b);
      short = omega (arith, same, positive);
      at_end = omega (arith, v.at_end, length-append content chunk);
      buffers = closed;
    }

-- A round ends with the bytes it wrote, or with an exception of a flush.
pub record IsRound (buffer content : List ℕ) (w : Writing) (r : Result ℕ × Writing) : Type 0 where
  pub count_of : ℕ
  pub tail : List ℕ
  pub after : Writing
  pub result : r ≡ (ok count_of, after)
  pub some_bytes : 0 < count_of
  pub within : count_of ≤ Base.length buffer
  pub written : IsWritten (content ++ take count_of buffer) tail after
  pub same_size : after.system.upload.part_size ≡ w.system.upload.part_size
  pub advanced : after.file_offset ≡ w.file_offset + count_of

module _ (flush : S3WriteBuffer → System → Result (Unit {0}) × System) where
  -- A call of FlushBuffer threw what Write throws.
  pub record IsThrown {A : Type 0} (r : Result A) : Type 0 where
    pub thrown : Exception
    pub buffer : S3WriteBuffer
    pub system : System
    pub by_flush : (flush buffer system).0 ≡ throw thrown
    pub by_write : r ≡ throw thrown

  -- What the loop ends with.
  pub data IsOutcome (content : List ℕ) (r : Result (Unit {0}) × Writing) : Type 0 where
    written : (tail : List ℕ) → r.0 ≡ ok tt → IsWritten content tail r.1 → IsOutcome content r
    thrown : IsThrown r.0 → IsOutcome content r

  -- The end of a round, from the bytes of the open part.
  abbrev pub ended : ℕ → ℕ → List ℕ → Writing → Result ℕ × Writing
  ended n h bytes w =
      counted n
        (flush_if_full flush (opened h bytes) w.system.upload.part_size (with_part h bytes w))

  pub ended_open :
      (n h : ℕ) (bytes : List ℕ) (w : Writing)
      → Base.length bytes < w.system.upload.part_size
      → ended n h bytes w ≡ (
        ok n,
        record (with_part h bytes w) { file_offset = w.file_offset + n; length = w.length + n },
      )
  unfolding flush_if_full
  ended_open n h bytes w below =
      let not_full : leb w.system.upload.part_size (Base.length bytes) ≡ false = ground arith in
      rw (not_full, flush_if_full) refl

  pub ended_full :
      (n h : ℕ) (bytes : List ℕ) (w : Writing)
      → Base.length bytes ≡ w.system.upload.part_size
      → (flush (opened h bytes) (with_part h bytes w).system).0 ≡ ok tt
      → ended n h bytes w ≡ (
        ok n,
        record w {
          file_offset = w.file_offset + n;
          length = w.length + n;
          system = (flush (opened h bytes) (with_part h bytes w).system).1;
          handed = w.handed ++ opened h bytes ∷ [];
        },
      )
  unfolding flush_if_full
  ended_full n h bytes w full went =
      let is_full : leb w.system.upload.part_size (Base.length bytes) ≡ true = ground arith in
      rw (is_full, went, flush_if_full) refl

  pub ended_thrown :
      (n h : ℕ) (bytes : List ℕ) (w : Writing) (e : Exception)
      → Base.length bytes ≡ w.system.upload.part_size
      → (flush (opened h bytes) (with_part h bytes w).system).0 ≡ throw e
      → (ended n h bytes w).0 ≡ throw e
  unfolding flush_if_full
  ended_thrown n h bytes w e full went =
      let is_full : leb w.system.upload.part_size (Base.length bytes) ≡ true = ground arith in
      rw (is_full, went, flush_if_full) refl
