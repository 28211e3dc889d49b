-- ===== src/Http/CachedFile/Assembly.antt =====
-- The download assembles the chunks in order, whatever their sizes.
use mathlib.Core.List.{append-nil, append_assoc}
use haybarn_httpfs.Base.{
  ℕ, zero, suc, ◌+◌, ◌*◌, ◌%◌, ◌^◌, ◌≤◌, ◌<◌, ◌≡◌, refl, sym, ap, ◌∙◌, inl, inr, false, List, [],
  ◌∷◌, ◌++◌, arith, ltb, ◌==◌, if◌then◌else◌, Bool-cases, length, length-append, take, replicate,
  length-take, length-replicate, splice, length-splice, take-splice, length-zero, concat,
}
use haybarn_httpfs.Http.Types.{ok, word}
use haybarn_httpfs.Http.CachedFile.{
  CachedFile, empty_file, write, grow_buffer, Download, double_until, first_chunk, next_chunk,
  receive, receive_all,
}

-- The doubling loop ends, at a capacity that suffices.
double_until_enough :
    (fuel c needed : ℕ)
    → 0 < c
    → needed ≤ c + fuel
    → needed ≤ 2 ^ 63
    → needed ≤ double_until fuel c needed
unfolding double_until
double_until_enough zero c needed p h k = omega arith
double_until_enough (suc fuel) c needed p h k = elim (Bool-cases (ltb c needed)) [
  | inl e ↦ rw e (double_until_enough fuel (c * 2 % word) needed (ground arith) (ground arith) k)
  | inr e ↦ rw e (ground arith)
]

-- What a download holds: the bytes received so far, at the front of the buffer.
pub record Holds (bytes : List ℕ) (d : Download) : Type 0 where
  pub not_initialized : d.file.initialized ≡ false
  pub allocated : d.file.capacity ≡ length d.file.content
  pub counted : d.length ≡ length bytes
  pub room : d.length ≤ d.file.capacity
  pub received : take d.length d.file.content ≡ bytes

first_chunk-Holds :
    (chunk : List ℕ) (d : Download)
    → d.file.initialized ≡ false
    → (d' : Download) × (first_chunk chunk d ≡ ok d') × Holds chunk d'
unfolding first_chunk
first_chunk-Holds chunk d h =
    let zeros : List ℕ = replicate (length chunk) 0 in
    let f : CachedFile = record d.file {
      content = splice 0 chunk zeros;
      capacity = length chunk;
    } in
    (
      record { file = f; length = length chunk },
      ground arith,
      record {
        not_initialized = h;
        allocated =
            omega (arith, length-splice 0 chunk zeros, length-replicate {A = ℕ} (length chunk) 0);
        counted = refl;
        room = omega arith;
        received =
            take-splice (length chunk) 0 chunk zeros (omega arith)
              (omega (arith, length-replicate {A = ℕ} (length chunk) 0));
      },
    )

-- The buffer after it was grown, if that was needed.
grown-Holds :
    (bytes : List ℕ) (c : ℕ) (d : Download)
    → Holds bytes d
    → d.length ≤ c
    → (f : CachedFile) × ((if c == d.file.capacity
          then ok d.file
          else grow_buffer c d.length d.file)
        ≡ ok f)
      × (f.capacity ≡ c)
      × Holds bytes (record d { file = f })
unfolding grow_buffer
grown-Holds bytes c d v h = elim (Bool-cases (c == d.file.capacity)) [
  | inl e ↦ (d.file, ground arith, ground arith, v)
  | inr e ↦
      let old : List ℕ = take d.length d.file.content in
      let zeros : List ℕ = replicate c 0 in
      (
        record d.file { content = splice 0 old zeros; capacity = c },
        rw e (ground (arith, v.not_initialized)),
        refl,
        record {
          not_initialized = v.not_initialized;
          allocated = omega (arith, length-splice 0 old zeros, length-replicate {A = ℕ} c 0);
          counted = v.counted;
          room = h;
          received =
              take-splice d.length 0 old zeros
                (omega (arith, length-take d.length d.file.content, v.allocated, v.room))
                (omega (arith, length-replicate {A = ℕ} c 0))
              ∙ v.received;
        },
      )
]

write-Holds :
    (bytes chunk : List ℕ) (d : Download) (needed : ℕ)
    → Holds bytes d
    → needed ≡ d.length + length chunk
    → needed ≤ d.file.capacity
    → Holds (bytes ++ chunk) (record { file = write chunk d.length d.file; length = needed })
unfolding write
write-Holds bytes chunk d needed v e h = record {
  not_initialized = v.not_initialized;
  allocated = v.allocated ∙ sym (length-splice d.length chunk d.file.content);
  counted = omega (arith, v.counted, length-append bytes chunk);
  room = h;
  received =
      take-splice needed d.length chunk d.file.content e (omega (arith, v.allocated))
      ∙ ap (λ l. l ++ chunk) v.received;
}

next_chunk-Holds :
    (bytes chunk : List ℕ) (d : Download)
    → Holds bytes d
    → 0 < d.file.capacity
    → length bytes + length chunk ≤ 2 ^ 63
    → (d' : Download) × (next_chunk chunk d ≡ ok d') × Holds (bytes ++ chunk) d'
unfolding next_chunk
next_chunk-Holds bytes chunk d v pos small =
    let needed : ℕ = (d.length + length chunk) % word in
    let c : ℕ = double_until needed d.file.capacity needed in
    let enough : needed ≤ c =
      double_until_enough needed d.file.capacity needed pos (omega arith)
        (omega (arith, v.counted)) in
    let total : needed ≡ d.length + length chunk = omega (arith, v.counted) in
    let (f, grown, same, w) = grown-Holds bytes c d v (omega arith) in
    (
      record { file = write chunk d.length f; length = needed },
      rw grown refl,
      write-Holds bytes chunk (record d { file = f }) needed w total (omega arith),
    )

receive-Holds :
    (bytes chunk : List ℕ) (d : Download)
    → Holds bytes d
    → length bytes + length chunk ≤ 2 ^ 63
    → (d' : Download) × (receive chunk d ≡ ok d') × Holds (bytes ++ chunk) d'
unfolding receive
receive-Holds bytes chunk d v small = elim (Bool-cases (d.file.capacity == 0)) [
  | inl e ↦
      let (d', run, w) = first_chunk-Holds chunk d v.not_initialized in
      let none_yet : bytes ≡ [] = length-zero bytes (ground (arith, v.counted, v.room)) in
      (d', rw e run, rw none_yet w)
  | inr e ↦
      let (d', run, w) = next_chunk-Holds bytes chunk d v (ground arith) small in (d', rw e run, w)
]

receive_all-Holds :
    (chunks : List (List ℕ)) (bytes : List ℕ) (d : Download)
    → Holds bytes d
    → length bytes + length (concat chunks) ≤ 2 ^ 63
    → (d' : Download) × (receive_all chunks d ≡ ok d') × Holds (bytes ++ concat chunks) d'
unfolding receive_all concat
receive_all-Holds [] bytes d v small = (d, refl, rw append-nil v)
receive_all-Holds (chunk ∷ chunks) bytes d v small =
    let (d', run, w) =
      receive-Holds bytes chunk d v (omega (arith, length-append chunk (concat chunks))) in
    let (e, runs, x) =
      receive_all-Holds chunks (bytes ++ chunk) d' w
        (omega (arith, length-append chunk (concat chunks), length-append bytes chunk)) in
    (e, rw run runs, rw (← append_assoc bytes chunk (concat chunks)) x)

-- A full download into a fresh file never fails on its buffer: when the chunks of all attempts
-- together are at most 2^63 bytes, the buffer begins with exactly these chunks in their order, and
-- `length` counts them.
pub receive_all-assembles :
    (chunks : List (List ℕ))
    → length (concat chunks) ≤ 2 ^ 63
    → (d : Download) × (receive_all chunks (record { file = empty_file; length = 0 }) ≡ ok d)
      × (d.length ≡ length (concat chunks))
      × (d.length ≤ length d.file.content)
      × (take d.length d.file.content ≡ concat chunks)
unfolding empty_file
receive_all-assembles chunks small =
    let start : Holds [] (record { file = empty_file; length = 0 }) = record {
      not_initialized = refl;
      allocated = refl;
      counted = refl;
      room = omega arith;
      received = refl;
    } in
    let (d, run, v) = receive_all-Holds chunks [] _ start (omega arith) in
    (d, run, v.counted, omega (arith, v.room, v.allocated), v.received)
