-- ===== src/Curl/Headers/Printed.antt =====
-- The header lines of a server, read by RequestHeaderCallback.
use mathlib.Core.List.{append_assoc, append-nil}
use haybarn_httpfs.Base.{
  ℕ, ◌+◌, ◌≡◌, refl, sym, ap, ◌∙◌, Bool, true, false, ◌&&◌, not, none, some, List, [], ◌∷◌, ◌++◌,
  map, arith, length, length-append, take, drop, Text, codes, starts_with, find_first, drop-append,
  take-append, is_free_of, find_first-character, find_first-absent,
}
use haybarn_httpfs.Curl.Headers.{
  Headers, CurlUtil, without_last, trim_line, insert_last, header_value, response_status,
  add_header, request_header_callback, collect_lines,
}

without_last-append : (c : ℕ) (s : Text) → without_last c (s ++ c ∷ []) ≡ some s
unfolding without_last
without_last-append c [] = ground arith
without_last-append c (d ∷ []) = ground arith
without_last-append c (d ∷ e ∷ s) = rw (without_last-append c (e ∷ s)) refl

abbrev pub field_text : Text → Text → Text
field_text name value = name ++ b':' ∷ b' ' ∷ value

abbrev pub line_end : Text
line_end = b'\r' ∷ b'\n' ∷ []

trim_line-ended : (s : Text) → trim_line (s ++ line_end) ≡ s
unfolding trim_line
trim_line-ended s =
    rw
      (
        sym (append_assoc s (b'\r' ∷ []) (b'\n' ∷ [])),
        without_last-append b'\n' (s ++ b'\r' ∷ []),
        without_last-append b'\r' s,
        trim_line,
      )
      refl

insert_last-append :
    (f : Headers → Headers) (cs : List Headers) (h : Headers)
    → insert_last f (cs ++ h ∷ []) ≡ some (cs ++ f h ∷ [])
unfolding insert_last
insert_last-append f [] h = refl
insert_last-append f (c ∷ []) h = refl
insert_last-append f (c ∷ d ∷ cs) h = rw (insert_last-append f (d ∷ cs) h) refl

drop-append-next : (k v : Text) → drop (length k + 1) (field_text k v) ≡ b' ' ∷ v
drop-append-next k v =
    ap (drop (length k + 1)) (sym (append_assoc k (b':' ∷ []) (b' ' ∷ v)))
    ∙ drop-append (length k + 1) (k ++ b':' ∷ []) (b' ' ∷ v)
        (omega (arith, length-append k (b':' ∷ [])))

-- The headers of one response as a server prints them.
pub record Block : Type 0 where
  pub status_line : Text
  pub fields : List (Text × Text)

abbrev pub print_fields : List (Text × Text) → List Text
print_fields [] = []
print_fields ((k, v) ∷ fields) = (field_text k v ++ line_end) ∷ print_fields fields

abbrev pub print_block : Block → List Text
print_block b = (b.status_line ++ line_end) ∷ print_fields b.fields ++ line_end ∷ []

abbrev pub print_blocks : List Block → List Text
print_blocks [] = []
print_blocks (b ∷ blocks) = print_block b ++ print_blocks blocks

-- A field that is not taken for a status line, and whose name ends at its first colon.
abbrev pub are_fields : List (Text × Text) → Bool
are_fields [] = true
are_fields ((k, v) ∷ fields) =
    is_free_of b':' k && not (starts_with (field_text k v) (codes "HTTP/")) && are_fields fields

abbrev pub are_blocks : List Block → Bool
are_blocks [] = true
are_blocks (b ∷ blocks) =
    is_free_of b':' b.status_line
    && starts_with b.status_line (codes "HTTP/")
    && are_fields b.fields
    && are_blocks blocks

module _ (util : CurlUtil) where
  abbrev pub add_fields : List (Text × Text) → Headers → Headers
  add_fields [] h = h
  add_fields ((k, v) ∷ fields) h = add_fields fields (util.insert_header (util.lower k) v h)

  abbrev pub headers_of : Block → Headers
  headers_of b = add_fields b.fields (util.insert_header response_status b.status_line [])

  add_header-colon :
      (header name value : Text) (n : ℕ) (cs : List Headers)
      → find_first header (codes ":") ≡ some n
      → starts_with header (codes "HTTP/") ≡ false
      → take n header ≡ name
      → header_value (drop (n + 1) header) ≡ some value
      → add_header util header cs ≡ insert_last (util.insert_header (util.lower name) value) cs
  unfolding add_header
  add_header-colon header name value n cs found not_status before behind =
      rw (found, behind, not_status, before, add_header) refl

  add_header-field :
      (k v : Text) (cs : List Headers) (h : Headers)
      → is_free_of b':' k ≡ true
      → starts_with (field_text k v) (codes "HTTP/") ≡ false
      → add_header util (field_text k v) (cs ++ h ∷ [])
        ≡ some (cs ++ util.insert_header (util.lower k) v h ∷ [])
  add_header-field k v cs h free not_status =
      add_header-colon (field_text k v) k v (length k) (cs ++ h ∷ [])
        (find_first-character b':' k (b' ' ∷ v) free) not_status
        (take-append (length k) k (b':' ∷ b' ' ∷ v) refl) (ap header_value (drop-append-next k v))
      ∙ insert_last-append _ cs h

  add_header-status :
      (s : Text) (cs : List Headers)
      → is_free_of b':' s ≡ true
      → starts_with s (codes "HTTP/") ≡ true
      → add_header util s cs ≡ some (cs ++ util.insert_header response_status s [] ∷ [])
  unfolding add_header
  add_header-status s cs free status = rw (find_first-absent b':' s free, status, add_header) refl

  add_header-blank : (cs : List Headers) → add_header util [] cs ≡ some cs
  unfolding add_header starts_with find_first
  add_header-blank cs = refl

  collect_lines-line :
      (s : Text) (lines : List Text) (cs ds : List Headers)
      → add_header util s cs ≡ some ds
      → collect_lines util ((s ++ line_end) ∷ lines) cs ≡ collect_lines util lines ds
  unfolding collect_lines request_header_callback
  collect_lines-line s lines cs ds e =
      ap (λ r. elim r [ none ↦ none | some c ↦ collect_lines util lines c ])
        (ap (λ h. add_header util h cs) (trim_line-ended s) ∙ e)

  collect_lines-fields :
      (fields : List (Text × Text)) (rest : List Text) (cs : List Headers) (h : Headers)
      → are_fields fields ≡ true
      → collect_lines util (print_fields fields ++ rest) (cs ++ h ∷ [])
        ≡ collect_lines util rest (cs ++ add_fields fields h ∷ [])
  collect_lines-fields [] rest cs h good = refl
  collect_lines-fields ((k, v) ∷ fields) rest cs h good =
      let added = add_header-field k v cs h (ground (arith, good)) (ground (arith, good)) in
      collect_lines-line (field_text k v) (print_fields fields ++ rest) _ _ added
      ∙ collect_lines-fields fields rest cs _ (ground (arith, good))

  collect_lines-block :
      (b : Block) (rest : List Text) (cs : List Headers)
      → are_blocks (b ∷ []) ≡ true
      → collect_lines util (print_block b ++ rest) cs
        ≡ collect_lines util rest (cs ++ headers_of b ∷ [])
  collect_lines-block b rest cs good =
      let status =
        add_header-status b.status_line cs (ground (arith, good)) (ground (arith, good)) in
      ap (λ l. collect_lines util l cs)
        (ap (λ l. (b.status_line ++ line_end) ∷ l)
          (append_assoc (print_fields b.fields) (line_end ∷ []) rest))
      ∙ collect_lines-line b.status_line _ cs _ status
      ∙ collect_lines-fields b.fields (line_end ∷ rest) cs _ (ground (arith, good))
      ∙ collect_lines-line [] rest _ _ (add_header-blank _)

  -- The lines of any number of responses, each a status line, fields and a blank line, are collected
  -- as one header map for each response, with its status line and its fields in their order under
  -- names in lower case, if no status line and no field name holds a colon, each status line begins
  -- with "HTTP/" and no field does. This includes fields with no value after the space.
  pub collect_lines-print_blocks :
      (blocks : List Block) (cs : List Headers)
      → are_blocks blocks ≡ true
      → collect_lines util (print_blocks blocks) cs ≡ some (cs ++ map headers_of blocks)
  unfolding collect_lines
  collect_lines-print_blocks [] cs good = simp (append-nil)
  collect_lines-print_blocks (b ∷ blocks) cs good =
      collect_lines-block b (print_blocks blocks) cs (ground (arith, good))
      ∙ collect_lines-print_blocks blocks (cs ++ headers_of b ∷ []) (ground (arith, good))
      ∙ simp (append_assoc)
