-- ===== src/Http/FileInfo/Sizes.antt =====
-- The sizes of printed headers.
use haybarn_httpfs.Base.{
  ℕ, suc, ◌-◌, ◌^◌, ◌<◌, ◌≡◌, refl, ◌∙◌, true, false, Option, none, some, List, [], ◌∷◌, ◌++◌,
  arith, ltb, if◌then◌else◌, length, drop, Text, text_eq, lookup, to_string, leads, to_string-leads,
  stoull-to_string, is_free_of, find_first-character,
}
use haybarn_httpfs.Http.FileInfo.{
  content_range, content_length, star, parse_size, range_size, try_parse_content_range,
  try_parse_content_length,
}

-- The size behind the slash, an asterisk when the server does not know it.
abbrev pub print_size : Option ℕ → Text
print_size none = star
print_size (some n) = to_string n

drop-slash : (a b : Text) → drop (suc (length a)) (a ++ b'/' ∷ b) ≡ b
drop-slash [] b = refl
drop-slash (c ∷ a) b = drop-slash a b

length-slash : (a b : Text) → ltb (length (a ++ b'/' ∷ b)) (suc (length a)) ≡ false
length-slash [] b = ground arith
length-slash (c ∷ a) b = ground (arith, length-slash a b)

leads-star : (s : Text) → leads s ≡ true → text_eq s star ≡ false
unfolding text_eq
leads-star [] h = cc
leads-star (c ∷ s) h = ground arith

module _ (optional_idx : ℕ → Option ℕ)
    (fits : (n : ℕ) → n < 2 ^ 64 - 1 → optional_idx n ≡ some n) where
  parse_size-to_string : (n : ℕ) → n < 2 ^ 64 - 1 → parse_size optional_idx (to_string n) ≡ some n
  parse_size-to_string n h = rw (stoull-to_string n (omega arith), parse_size) (fits n h)

  range_size-behind :
      (a b : Text)
      → is_free_of b'/' a ≡ true
      → range_size optional_idx (a ++ b'/' ∷ b)
        ≡ (if text_eq b star then none else parse_size optional_idx b)
  unfolding range_size
  range_size-behind a b h =
      rw (find_first-character b'/' a b h, length-slash a b, drop-slash a b, range_size) refl

  range_size-print_size :
      (a : Text) (size : Option ℕ)
      → is_free_of b'/' a ≡ true
      → ((n : ℕ) → size ≡ some n → n < 2 ^ 64 - 1)
      → range_size optional_idx (a ++ b'/' ∷ print_size size) ≡ size
  range_size-print_size a none h l = range_size-behind a star h ∙ unfold text_eq in refl
  range_size-print_size a (some n) h l =
      range_size-behind a (to_string n) h
      ∙ rw (leads-star (to_string n) (to_string-leads n)) (parse_size-to_string n (l n refl))

  -- Of a Content-Range header, any text without a slash and then a slash and the size, or an asterisk
  -- for an unknown size, TryParseContentRange returns the size, and no value for an unknown one, and of
  -- a Content-Length header TryParseContentLength returns the length: provided that both are below
  -- 2^64 - 1 and optional_idx takes such numbers.
  pub try_parse_content_range-print_size :
      (a : Text) (size : Option ℕ) (n : ℕ) (headers : List (Text × Text))
      → is_free_of b'/' a ≡ true
      → ((m : ℕ) → size ≡ some m → m < 2 ^ 64 - 1)
      → n < 2 ^ 64 - 1
      → lookup content_range headers ≡ some (a ++ b'/' ∷ print_size size)
      → lookup content_length headers ≡ some (to_string n)
      → (try_parse_content_range optional_idx headers ≡ size)
        × (try_parse_content_length optional_idx headers ≡ some n)
  unfolding try_parse_content_range try_parse_content_length
  try_parse_content_range-print_size a size n headers h l m range len = (
    rw (range, try_parse_content_range) (range_size-print_size a size h l),
    rw (len, try_parse_content_length) (parse_size-to_string n m),
  )
