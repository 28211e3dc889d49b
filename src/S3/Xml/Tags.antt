-- ===== src/S3/Xml/Tags.antt =====
-- TryFindTagContents: what it finds, and what it is sure to find.
use mathlib.Core.Path.{subst}
use mathlib.Core.Option
use haybarn_httpfs.Base.{
  ℕ, ◌+◌, ◌-◌, ◌≤◌, ◌<◌, ◌≡◌, refl, sym, ap, ◌∙◌, inl, inr, Bool, true, false, ◌&&◌, not, none,
  some, [], ◌∷◌, ◌++◌, arith, ◌==◌, if◌then◌else◌, Option-cases, length, take, drop,
  take-append-drop, length-drop, Text, codes, starts_with, starts_with-append, starts_with-split,
  starts_with-length, find_first, find, substr, find_first-starts, drop-drop, drop-append,
  take-append,
}
use haybarn_httpfs.Http.Types.{ok}
use haybarn_httpfs.S3.Xml.{
  open_tag, close_tag, find_contents, try_find_tag_contents, find_tag_contents,
}

-- A hit splits the text at its position.
pub find-split :
    (s t : Text) (pos k : ℕ)
    → find s t pos ≡ some k
    → (pos ≤ k) × (drop k s ≡ t ++ drop (k + length t) s) × (length t ≤ length s - k)
unfolding find
find-split s t pos k h = elim (Option-cases (find_first (drop pos s) t)) [
  | inl e ↦ absurd (ground (arith, e))
  | inr (j, e) ↦
      let at : k ≡ pos + j = ground (arith, e) in
      let hit : starts_with (drop k s) t ≡ true =
        subst (λ l. starts_with l t ≡ true) (drop-drop k pos j s at)
          (find_first-starts (drop pos s) t e) in
      (
        omega arith,
        starts_with-split (drop k s) t hit
            ∙ ap (λ l. t ++ l) (drop-drop (k + length t) k (length t) s refl),
        omega (arith, starts_with-length (drop k s) t hit, length-drop k s),
      )
]

-- The response holds the tag from position `start` on, with the contents in it and `next_pos` behind it.
pub record Found (response tag : Text) (pos : ℕ) (contents : Text) (next_pos : ℕ) : Type 0 where
  pub start : ℕ
  pub behind : pos ≤ start
  pub tagged :
      drop start response ≡ open_tag tag ++ (contents ++ (close_tag tag ++ drop next_pos response))
  pub forward : pos < next_pos
  pub inside : next_pos ≤ length response

length-close_tag : (tag : Text) → 0 < length (close_tag tag)
length-close_tag tag = omega arith

find_contents-split :
    (response tag : Text) (start next_pos : ℕ) (contents : Text)
    → find_contents response tag start ≡ some (contents, next_pos)
    → (drop start response ≡ contents ++ (close_tag tag ++ drop next_pos response))
      × (start < next_pos)
      × (next_pos ≤ length response)
unfolding find_contents substr
find_contents-split response tag start next_pos contents h =
    elim (Option-cases (find response (close_tag tag) start)) [
      | inl e ↦ absurd (ground (arith, e))
      | inr (k, e) ↦
          let (after, same, fits) = find-split response (close_tag tag) start k e in
          let body : take (k - start) (drop start response) ≡ contents = ground (arith, e) in
          let next : next_pos ≡ k + length (close_tag tag) = ground (arith, e) in
          (
            sym (take-append-drop (k - start) (drop start response))
                ∙ ap (λ l. l ++ drop (k - start) (drop start response)) body
                ∙ ap (λ l. contents ++ l)
                    (drop-drop k start (k - start) response (omega arith)
                      ∙ same
                      ∙ ap (λ n. close_tag tag ++ drop n response) (sym next)),
            omega (arith, length-close_tag tag),
            omega (arith, length-close_tag tag),
          )
    ]

-- What TryFindTagContents finds at a position or behind it is in the response: the open tag, the
-- contents, the close tag, and the returned position behind them, further on than where the search began.
pub try_find_tag_contents-Found :
    (response tag contents : Text) (pos next_pos : ℕ)
    → try_find_tag_contents response tag pos ≡ some (contents, next_pos)
    → Found response tag pos contents next_pos
unfolding try_find_tag_contents
try_find_tag_contents-Found response tag contents pos next_pos h =
    elim (Option-cases (find response (open_tag tag) pos)) [
      | inl e ↦ absurd (ground (arith, e))
      | inr (k, e) ↦
          let (after, same, _) = find-split response (open_tag tag) pos k e in
          let (rest, forward, inside) =
            find_contents-split response tag (k + length (open_tag tag)) next_pos contents
              (ground (arith, e)) in
          record {
            start = k;
            behind = after;
            tagged = same ∙ ap (λ l. open_tag tag ++ l) rest;
            forward = omega arith;
            inside = inside;
          }
    ]

-- Whether the text differs from the start of `t`, however it goes on.
abbrev differs : Text → Text → Bool
differs (c ∷ s) (d ∷ t) = if c == d then differs s t else true
differs _ _ = false

-- Whether no position of the text is one of `t`, however the text goes on.
unfoldable pub misses : Text → Text → Bool
misses [] t = true
misses (c ∷ s) t = differs (c ∷ s) t && misses s t

differs-starts_with : (s t r : Text) → differs s t ≡ true → starts_with (s ++ r) t ≡ false
unfolding starts_with
differs-starts_with (c ∷ s) (d ∷ t) r h = ground (arith, differs-starts_with s t r)
differs-starts_with [] t r h = cc
differs-starts_with (c ∷ s) [] r h = cc

-- The search passes over such a text.
pub find_first-misses :
    (s t r : Text) (k : ℕ)
    → misses s t ≡ true
    → find_first r t ≡ some k
    → find_first (s ++ r) t ≡ some (length s + k)
unfolding misses find_first
find_first-misses [] t r k h e = ground (arith, e)
find_first-misses (c ∷ s) t r k h e =
    let later = find_first-misses s t r k (ground (arith, h)) e in
    let here = differs-starts_with (c ∷ s) t r (ground (arith, h)) in ground (arith, later, here)

pub find_first-here : (t r : Text) → find_first (t ++ r) t ≡ some 0
unfolding find_first
find_first-here [] [] = refl
find_first-here [] (c ∷ r) = refl
find_first-here (d ∷ t) r = rw (starts_with-append (d ∷ t) r) refl

find-at :
    (s t before after : Text) (pos : ℕ)
    → drop pos s ≡ before ++ (t ++ after)
    → misses before t ≡ true
    → find s t pos ≡ some (pos + length before)
unfolding find
find-at s t before after pos e clear =
    ap (λ l. Option.map (λ k. pos + k) (find_first l t)) e
    ∙ ap (Option.map (λ k. pos + k))
        (find_first-misses before t (t ++ after) 0 clear (find_first-here t after))
    ∙ ap some (omega arith)

-- Where the text goes on, behind a part that starts at `pos`.
drop-part :
    (s part after : Text) (pos k : ℕ)
    → drop pos s ≡ part ++ after
    → k ≡ pos + length part
    → drop k s ≡ after
drop-part s part after pos k e at =
    sym (drop-drop k pos (length part) s at)
    ∙ ap (drop (length part)) e
    ∙ drop-append (length part) part after refl

-- The contents of a tag that comes next.
abbrev pub behind_tag : Text → Text → Text → ℕ → ℕ
behind_tag before tag contents pos =
    pos + length before + length (open_tag tag) + length contents + length (close_tag tag)

find_contents-at :
    (response tag contents after : Text) (start : ℕ)
    → drop start response ≡ contents ++ (close_tag tag ++ after)
    → misses contents (close_tag tag) ≡ true
    → find_contents response tag start
      ≡ some (contents, start + length contents + length (close_tag tag))
unfolding find_contents substr
find_contents-at response tag contents after start e clear =
    let hit = find-at response (close_tag tag) contents after start e clear in
    let body : take (start + length contents - start) (drop start response) ≡ contents =
      ap (take (start + length contents - start)) e
      ∙ take-append (start + length contents - start) contents (close_tag tag ++ after)
          (omega arith) in
    rw (hit, body, find_contents) refl

-- TryFindTagContents finds the next tag when neither tag stands earlier, and goes on behind it.
pub try_find_tag_contents-at :
    (response tag before contents after : Text) (pos : ℕ)
    → drop pos response ≡ before ++ (open_tag tag ++ (contents ++ (close_tag tag ++ after)))
    → misses before (open_tag tag) ≡ true
    → misses contents (close_tag tag) ≡ true
    → (try_find_tag_contents response tag pos ≡ some (contents, behind_tag before tag contents pos))
      × (drop (behind_tag before tag contents pos) response ≡ after)
unfolding try_find_tag_contents
try_find_tag_contents-at response tag before contents after pos e clear clear' =
    let rest = contents ++ (close_tag tag ++ after) in
    let hit = find-at response (open_tag tag) before rest pos e clear in
    let opened =
      drop-part response before (open_tag tag ++ rest) pos (pos + length before) e refl in
    let inner =
      drop-part response (open_tag tag) rest (pos + length before)
        (pos + length before + length (open_tag tag)) opened refl in
    let closed =
      drop-part response contents (close_tag tag ++ after)
        (pos + length before + length (open_tag tag))
        (pos + length before + length (open_tag tag) + length contents) inner refl in
    (
      rw
          (
            hit,
            find_contents-at response tag contents after
                (pos + length before + length (open_tag tag)) inner clear',
            try_find_tag_contents,
          )
          refl,
      drop-part response (close_tag tag) after
          (pos + length before + length (open_tag tag) + length contents)
          (behind_tag before tag contents pos) closed refl,
    )

-- The same of FindTagContents.
pub find_tag_contents-at :
    (response tag before contents after : Text) (pos : ℕ)
    → drop pos response ≡ before ++ (open_tag tag ++ (contents ++ (close_tag tag ++ after)))
    → misses before (open_tag tag) ≡ true
    → misses contents (close_tag tag) ≡ true
    → find_tag_contents response tag pos ≡ ok (some (contents, behind_tag before tag contents pos))
unfolding find_tag_contents
find_tag_contents-at response tag before contents after pos e clear clear' =
    let (found, _) =
      try_find_tag_contents-at response tag before contents after pos e clear clear' in
    rw
      (
        find-at response (open_tag tag) before (contents ++ (close_tag tag ++ after)) pos e clear,
        found,
        find_tag_contents,
      )
      refl

-- No '<' in a text: then no tag starts in it.
abbrev pub has_no_tag : Text → Bool
has_no_tag [] = true
has_no_tag (c ∷ s) = not (c == b'<') && has_no_tag s

pub misses-tag : (s t : Text) → has_no_tag s ≡ true → misses s (b'<' ∷ t) ≡ true
unfolding misses
misses-tag [] t h = refl
misses-tag (c ∷ s) t h = ground (arith, misses-tag s t)

-- What one part and another part miss, both together miss.
differs-append : (s r t : Text) → differs s t ≡ true → differs (s ++ r) t ≡ true
differs-append (c ∷ s) r (d ∷ t) h = ground (arith, differs-append s r t)
differs-append [] r t h = cc
differs-append (c ∷ s) r [] h = cc

pub misses-append :
    (s r t : Text) → misses s t ≡ true → misses r t ≡ true → misses (s ++ r) t ≡ true
unfolding misses
misses-append [] r t h k = k
misses-append (c ∷ s) r t h k = ground (arith, misses-append s r t, differs-append (c ∷ s) r t)

differs-prefix : (s t : Text) → differs s t ≡ true → starts_with s t ≡ false
unfolding starts_with
differs-prefix (c ∷ s) (d ∷ t) h = ground (arith, differs-prefix s t)
differs-prefix [] t h = cc
differs-prefix (c ∷ s) [] h = cc

pub misses-none : (s t : Text) (c : ℕ) → misses s (c ∷ t) ≡ true → find_first s (c ∷ t) ≡ none
unfolding misses find_first starts_with
misses-none [] t c h = refl
misses-none (d ∷ s) t c h =
    let here = differs-prefix (d ∷ s) (c ∷ t) (ground (arith, h)) in
    ground (arith, here, misses-none s t c)

-- Where no open tag is, FindTagContents finds nothing.
pub find_tag_contents-none :
    (response tag : Text) (pos : ℕ)
    → misses (drop pos response) (open_tag tag) ≡ true
    → find_tag_contents response tag pos ≡ ok none
unfolding find_tag_contents find
find_tag_contents-none response tag pos h =
    rw (misses-none (drop pos response) (tag ++ codes ">") b'<' h, find_tag_contents, find) refl
