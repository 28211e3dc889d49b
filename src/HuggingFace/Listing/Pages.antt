-- ===== src/HuggingFace/Listing/Pages.antt =====
-- A printed page of a listing is read back.
use mathlib.Core.List.{append-nil, append_assoc}
use haybarn_httpfs.Base.{
  ℕ, suc, ◌+◌, ◌<◌, ◌≡◌, refl, sym, ap, ◌∙◌, inl, inr, Bool, true, false, ◌&&◌, List, [], ◌∷◌, ◌++◌,
  arith, if◌then◌else◌, Bool-cases, length, drop, Text, is_free_of,
}
use haybarn_httpfs.Http.Types.{ok}
use haybarn_httpfs.HuggingFace.Listing.{
  file, dir, base, entry, pathname, Scan, type_directory, type_file, path_key, step, scan, started,
  parse_list_result,
}
use haybarn_httpfs.HuggingFace.Listing.Rounds.{scan-fuel, run, run-step, is_quiet, run-quiet}

-- What else an entry holds: text, or an object of its own.
pub data Extra : Type 0 where
  text object : Text → Extra

abbrev pub print_extra : Extra → Text
print_extra (text q) = q
print_extra (object q) = b'{' ∷ (q ++ b'}' ∷ [])

abbrev pub content : Extra → Text
content (text q) = q
content (object q) = q

abbrev pub print_extras : List Extra → Text
print_extras [] = []
print_extras (x ∷ xs) = print_extra x ++ print_extras xs

abbrev pub are_quiet : List Extra → Bool
are_quiet [] = true
are_quiet (x ∷ xs) = is_quiet (content x) && are_quiet xs

pub record Listed : Type 0 where
  pub is_file : Bool
  pub path : Text
  pub before : List Extra
  pub between : List Extra
  pub after : List Extra

abbrev pub print_entry : Listed → Text
print_entry e =
    b'{'
    ∷ (print_extras e.before
        ++ ((if e.is_file then type_file else type_directory)
            ++ (print_extras e.between
                ++ (path_key ++ (e.path ++ b'"' ∷ (print_extras e.after ++ b'}' ∷ []))))))

-- The entries behind the first, each with the comma before it, and the end of the array.
abbrev pub print_entries : List Listed → Text
print_entries [] = b']' ∷ []
print_entries (e ∷ es) = b',' ∷ (print_entry e ++ print_entries es)

abbrev pub print_page : List Listed → Text
print_page [] = b'[' ∷ b']' ∷ []
print_page (e ∷ es) = b'[' ∷ (print_entry e ++ print_entries es)

abbrev pub is_plain : List Listed → Bool
is_plain [] = true
is_plain (e ∷ es) =
    (is_free_of b'"' e.path && is_free_of b'\\' e.path)
    && (are_quiet e.before && (are_quiet e.between && are_quiet e.after))
    && is_plain es

-- The paths of the files, or of the directories.
abbrev pub paths : Bool → List Listed → List Text
paths files [] = []
paths files (e ∷ es) =
    if files
    then (if e.is_file then (b'/' ∷ e.path) ∷ paths files es else paths files es)
    else if e.is_file
    then paths files es
    else (b'/' ∷ e.path) ∷ paths files es

run-object :
    (s : Scan) (q rest : Text)
    → is_quiet q ≡ true
    → run entry s (b'{' ∷ (q ++ b'}' ∷ rest)) ≡ run entry s rest
unfolding step
run-object s q rest h =
    let inside = record s { nested = s.nested + 1 } in
    run-step entry entry s inside b'{' (q ++ b'}' ∷ rest) (q ++ b'}' ∷ rest) refl
    ∙ run-quiet inside q (b'}' ∷ rest) h
    ∙ run-step entry entry inside s b'}' rest rest (ground arith)

run-extras :
    (s : Scan) (xs : List Extra) (rest : Text)
    → are_quiet xs ≡ true
    → run entry s (print_extras xs ++ rest) ≡ run entry s rest
run-extras s [] rest h = refl
run-extras s (text q ∷ xs) rest h =
    rw (append_assoc q (print_extras xs) rest)
      (run-quiet s q (print_extras xs ++ rest) (ground arith) ∙ run-extras s xs rest (ground arith))
run-extras s (object q ∷ xs) rest h =
    ap (run entry s) (simp (append_assoc))
    ∙ run-object s q (print_extras xs ++ rest) (ground arith)
    ∙ run-extras s xs rest (ground arith)

run-path :
    (s : Scan) (p rest : Text)
    → is_free_of b'"' p ≡ true
    → run pathname s (p ++ b'"' ∷ rest)
      ≡ run entry (record s { current_string = s.current_string ++ p }) rest
unfolding step is_free_of
run-path s [] rest h = rw append-nil (run-step pathname entry s s b'"' rest rest refl)
run-path s (c ∷ p) rest h =
    let longer = record s { current_string = s.current_string ++ c ∷ [] } in
    run-step pathname pathname s longer c (p ++ b'"' ∷ rest) (p ++ b'"' ∷ rest) (ground arith)
    ∙ run-path longer p rest (ground arith)
    ∙ rw append_assoc

run-type :
    (s : Scan) (is_file : Bool) (rest : Text)
    → run entry s ((if is_file then type_file else type_directory) ++ rest)
      ≡ run entry (record s { type = if is_file then file else dir }) rest
unfolding step
run-type s true rest =
    run-step entry entry s (record s { type = file }) b'"' (drop 1 type_file ++ rest) rest refl
run-type s false rest =
    run-step entry entry s (record s { type = dir }) b'"' (drop 1 type_directory ++ rest) rest refl

run-path_key :
    (s : Scan) (rest : Text)
    → run entry s (path_key ++ rest) ≡ run pathname (record s { found_path = true }) rest
unfolding step
run-path_key s rest =
    run-step entry pathname s (record s { found_path = true }) b'"' (drop 1 path_key ++ rest) rest
      refl

-- What a complete entry leaves.
abbrev with_entry : Listed → List Text → List Text → Scan
with_entry e files directories =
    if e.is_file
    then started (files ++ (b'/' ∷ e.path) ∷ []) directories
    else started files (directories ++ (b'/' ∷ e.path) ∷ [])

abbrev read_entry : Listed → List Text → List Text → Scan
read_entry e files directories = record {
  nested = 0;
  found_path = true;
  type = if e.is_file then file else dir;
  current_string = e.path;
  files = files;
  directories = directories;
}

run-close :
    (e : Listed) (files directories : List Text) (rest : Text)
    → run entry (read_entry e files directories) (b'}' ∷ rest)
      ≡ run base (with_entry e files directories) rest
unfolding step
run-close e files directories rest =
    let after = with_entry e files directories in
    let closed : step entry (read_entry e files directories) b'}' rest ≡ ok (base, after, rest) =
      elim (Bool-cases e.is_file) [ inl f ↦ rw f refl | inr d ↦ rw d refl ] in
    run-step entry base (read_entry e files directories) after b'}' rest rest closed

run-entry :
    (e : Listed) (files directories : List Text) (rest : Text)
    → is_free_of b'"' e.path ≡ true
    → are_quiet e.before && (are_quiet e.between && are_quiet e.after) ≡ true
    → run base (started files directories) (print_entry e ++ rest)
      ≡ run base (with_entry e files directories) rest
unfolding step
run-entry e files directories rest path_quote quiet =
    let s = started files directories in
    let typed = record s { type = if e.is_file then file else dir } in
    let found = record typed { found_path = true } in
    let tail = b'}' ∷ rest in
    let from_quote = print_extras e.after ++ tail in
    let from_path = e.path ++ b'"' ∷ from_quote in
    let from_between = print_extras e.between ++ (path_key ++ from_path) in
    let from_type = (if e.is_file then type_file else type_directory) ++ from_between in
    ap (run base s) (simp (append_assoc))
    ∙ run-step base entry s s b'{' (print_extras e.before ++ from_type)
        (print_extras e.before ++ from_type) refl
    ∙ run-extras s e.before from_type (ground arith)
    ∙ run-type s e.is_file from_between
    ∙ run-extras typed e.between (path_key ++ from_path) (ground arith)
    ∙ run-path_key typed from_path
    ∙ run-path found e.path from_quote path_quote
    ∙ run-extras (read_entry e files directories) e.after tail (ground arith)
    ∙ run-close e files directories rest

with_entry-paths :
    (e : Listed) (es : List Listed) (files directories : List Text)
    → run base (with_entry e files directories) (print_entries es) ≡ (
        if e.is_file
        then run base (started (files ++ (b'/' ∷ e.path) ∷ []) directories) (print_entries es)
        else run base (started files (directories ++ (b'/' ∷ e.path) ∷ [])) (print_entries es))
with_entry-paths e es files directories = elim (Bool-cases e.is_file) [
  | inl f ↦ rw f refl
  | inr d ↦ rw d refl
]

run-entries :
    (es : List Listed) (files directories : List Text)
    → is_plain es ≡ true
    → run base (started files directories) (print_entries es)
      ≡ ok (started (files ++ paths true es) (directories ++ paths false es))
unfolding scan step
run-entries [] files directories h = rw (append-nil files, append-nil directories) refl
run-entries (e ∷ es) files directories h =
    let s = started files directories in
    run-step base base s s b',' (print_entry e ++ print_entries es)
      (print_entry e ++ print_entries es) refl
    ∙ run-entry e files directories (print_entries es) (ground arith) (ground arith)
    ∙ with_entry-paths e es files directories
    ∙ elim (Bool-cases e.is_file) [
      | inl f ↦
          rw (f, run-entries es (files ++ (b'/' ∷ e.path) ∷ []) directories (ground arith))
            (ap (λ l. ok (started l (directories ++ paths false es)))
              (append_assoc files ((b'/' ∷ e.path) ∷ []) (paths true es)))
      | inr d ↦
          rw (d, run-entries es files (directories ++ (b'/' ∷ e.path) ∷ []) (ground arith))
            (ap (λ l. ok (started (files ++ paths true es) l))
              (append_assoc directories ((b'/' ∷ e.path) ∷ []) (paths false es)))
    ]

run-page :
    (es : List Listed) (files directories : List Text)
    → is_plain es ≡ true
    → run base (started files directories) (print_page es)
      ≡ ok (started (files ++ paths true es) (directories ++ paths false es))
unfolding step
run-page [] files directories h =
    let s = started files directories in
    run-step base base s s b'[' (b']' ∷ []) (b']' ∷ []) refl ∙ run-entries [] files directories h
run-page (e ∷ es) files directories h =
    let s = started files directories in
    let entries = print_entry e ++ print_entries es in
    run-step base base s s b'[' entries entries refl
    ∙ sym (run-step base base s s b',' entries entries refl)
    ∙ run-entries (e ∷ es) files directories h

-- ParseListResult reads a printed page back, with any fuel above its length: it appends the paths of
-- the page's files to `files` and those of its directories to `directories`, in their order and with a
-- slash in front. The page is an array of objects, each with its type before its path, and around them
-- any text and objects without braces of their own in which no quote is followed by a 't' or a 'p';
-- the paths hold neither a quote nor a backslash.
pub parse_list_result-print_page :
    (fuel : ℕ) (es : List Listed) (files directories : List Text)
    → is_plain es ≡ true
    → length (print_page es) < fuel
    → (parse_list_result (print_page es) files directories
        ≡ ok (started (files ++ paths true es) (directories ++ paths false es)))
      × (scan fuel base (started files directories) (print_page es)
          ≡ parse_list_result (print_page es) files directories)
unfolding parse_list_result
parse_list_result-print_page fuel es files directories h enough =
    let s = started files directories in
    (
      run-page es files directories h,
      scan-fuel fuel (suc (length (print_page es))) base s (print_page es) enough (omega arith),
    )
