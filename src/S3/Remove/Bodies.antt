-- ===== src/S3/Remove/Bodies.antt =====
-- What the body of a delete request names, read from the body alone.
use mathlib.Core.List.{append_assoc, append-nil}
use haybarn_httpfs.Base.{
  ◌≡◌, refl, ap, ◌∙◌, Bool, true, false, ◌&&◌, List, [], ◌∷◌, ◌++◌, arith, ◌==◌, if◌then◌else◌,
  drop, Text, codes, starts_with, is_free_of, is_free_of-append,
}
use haybarn_httpfs.S3.Remove.{object_elements, xml_body}

-- The text before the first '<', and the pieces behind each '<'.
abbrev pub pieces : Text → Text × List Text
pieces [] = ([], [])
pieces (c ∷ body) =
    let (first, rest) = pieces body in if c == b'<' then ([], first ∷ rest) else (c ∷ first, rest)

-- The text of an element Key, from the piece that opens it.
abbrev pub key_in : Text → List Text
key_in piece = if starts_with piece (codes "Key>") then drop 4 piece ∷ [] else []

abbrev pub keys_of_pieces : List Text → List Text
keys_of_pieces [] = []
keys_of_pieces (piece ∷ rest) = key_in piece ++ keys_of_pieces rest

-- The texts of the elements Key of a body in order, as a reader of XML has them: a body with '&', which
-- begins a reference, is refused.
abbrev pub named_keys : Text → List Text
named_keys body = if is_free_of b'&' body then keys_of_pieces (pieces body).1 else []

-- Keys that are written into XML as they are.
abbrev pub all_plain : List Text → Bool
all_plain [] = true
all_plain (key ∷ keys) = (is_free_of b'<' key && is_free_of b'&' key) && all_plain keys

pieces-free :
    (key body : Text)
    → is_free_of b'<' key ≡ true
    → pieces (key ++ b'<' ∷ body) ≡ (key, (pieces body).0 ∷ (pieces body).1)
unfolding is_free_of
pieces-free [] body h = refl
pieces-free (c ∷ key) body h =
    let rest = pieces-free key body (ground arith) in
    let other : (c == b'<') ≡ false = ground arith in
    ap (λ r. if c == b'<' then ([], r.0 ∷ r.1) else (c ∷ r.0, r.1)) rest ∙ rw other refl

-- The elements of the keys and what is behind them.
keys_of_pieces-elements :
    (keys : List Text) (body : Text)
    → all_plain keys ≡ true
    → keys_of_pieces (pieces (object_elements keys ++ b'<' ∷ body)).1
      ≡ keys ++ keys_of_pieces (pieces (b'<' ∷ body)).1
unfolding starts_with
keys_of_pieces-elements [] body h = refl
keys_of_pieces-elements (key ∷ keys) body h =
    let tail = object_elements keys ++ b'<' ∷ body in
    let behind = codes "/Key></Object>" ++ tail in
    let split : object_elements (key ∷ keys) ++ b'<' ∷ body
        ≡ codes "<Object><Key>" ++ (key ++ b'<' ∷ behind) =
      simp (append_assoc) in
    ap (λ t. keys_of_pieces (pieces t).1) split
    ∙ ap (λ r. r.0 ∷ keys_of_pieces r.1) (pieces-free key behind (ground arith))
    ∙ ap (λ l. key ∷ l) (keys_of_pieces-elements keys body (ground arith))

is_free_of-elements :
    (keys : List Text) → all_plain keys ≡ true → is_free_of b'&' (object_elements keys) ≡ true
unfolding is_free_of
is_free_of-elements [] h = refl
is_free_of-elements (key ∷ keys) h =
    let rest = is_free_of-elements keys (ground arith) in
    let behind =
      is_free_of-append b'&' (codes "</Key></Object>") (object_elements keys) refl rest in
    let end = codes "</Key></Object>" ++ object_elements keys in
    let split : object_elements (key ∷ keys) ≡ codes "<Object><Key>" ++ (key ++ end) =
      simp (append_assoc) in
    ap (is_free_of b'&') split
    ∙ is_free_of-append b'&' (codes "<Object><Key>") (key ++ end) refl
        (is_free_of-append b'&' key end (ground arith) behind)

-- A body of RemoveFiles names the keys that it is made of.
pub named_keys-xml_body :
    (keys : List Text) → all_plain keys ≡ true → named_keys (xml_body keys) ≡ keys
unfolding xml_body is_free_of starts_with
named_keys-xml_body keys h =
    let end = codes "Quiet>true</Quiet></Delete>" in
    let unescaped : is_free_of b'&' (object_elements keys ++ b'<' ∷ end) ≡ true =
      is_free_of-append b'&' (object_elements keys) (b'<' ∷ end) (is_free_of-elements keys h)
        refl in
    let start =
      codes "<?xml version=\"1.0\" encoding=\"UTF-8\"?>"
      ++ codes "<Delete xmlns=\"http://s3.amazonaws.com/doc/2006-03-01/\">" in
    let split : xml_body keys ≡ start ++ (object_elements keys ++ b'<' ∷ end) =
      simp (append_assoc) in
    ap named_keys split
    ∙ ap (λ b. if b then keys_of_pieces (pieces (object_elements keys ++ b'<' ∷ end)).1 else [])
        unescaped
    ∙ keys_of_pieces-elements keys end h
    ∙ append-nil keys
