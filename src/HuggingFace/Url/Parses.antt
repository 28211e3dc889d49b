-- ===== src/HuggingFace/Url/Parses.antt =====
-- A printed Hugging Face URL is read back.
use mathlib.Core.List.{append_assoc}
use haybarn_httpfs.Base.{
  ℕ, ◌+◌, ◌-◌, ◌≡◌, refl, ap, ◌∙◌, ◌⊎◌, inl, inr, true, false, ◌&&◌, not, some, [], ◌∷◌, ◌++◌,
  arith, ltb, Bool-cases, Option-cases, length, length-append, drop, Text, codes, text_eq,
  text_eq_sound, find, substr, drop-append, is_free_of, find-behind, substr-behind,
  is_free_of-append, le-find-behind,
}
use haybarn_httpfs.Http.Types.{ok, plain}
use haybarn_httpfs.HuggingFace.Url.{
  ParsedHfUrl, default_endpoint, default_url, parse_repository, hf_url_parse, get_hf_url,
}

-- What the parts of a URL must not hold, so that the delimiters can be found.
pub record IsPlain (owner name : Text) (url : ParsedHfUrl) : Type 0 where
  pub repo_type_known : (url.repo_type ≡ codes "datasets") ⊎ (url.repo_type ≡ codes "spaces")
  pub repository_of : url.repository ≡ owner ++ b'/' ∷ name
  pub owner_slash : is_free_of b'/' owner ≡ true
  pub name_slash : is_free_of b'/' name ≡ true
  pub name_at : is_free_of b'@' name ≡ true
  pub revision_slash : is_free_of b'/' url.revision ≡ true
  pub endpoint_of : url.endpoint ≡ default_endpoint

-- The repository of a URL: what stands before it, owner and name, and what follows.
module _ (url kind a owner name t : Text) (last_delim : ℕ)
    (whole : url ≡ a ++ (owner ++ b'/' ∷ (name ++ t))) (start : last_delim + 1 ≡ length a)
    (owner_slash : is_free_of b'/' owner ≡ true) (name_slash : is_free_of b'/' name ≡ true)
    (name_at : is_free_of b'@' name ≡ true) where
  abbrev repo_delim : ℕ
  repo_delim = last_delim + 1 + length owner

  abbrev name_end : ℕ
  name_end = repo_delim + 1 + length name

  found_repository : find url (codes "/") (last_delim + 1) ≡ some repo_delim
  found_repository =
      find-behind url a owner (name ++ t) b'/' (last_delim + 1) repo_delim whole start refl
        owner_slash

  before_name : url ≡ (a ++ (owner ++ b'/' ∷ [])) ++ (name ++ t)
  before_name = whole ∙ simp (append_assoc)

  name_start : repo_delim + 1 ≡ length (a ++ (owner ++ b'/' ∷ []))
  name_start = omega (arith, length-append a (owner ++ b'/' ∷ []), length-append owner (b'/' ∷ []))

  repository_text :
      (k : ℕ) → k ≡ name_end - last_delim - 1 → substr url (last_delim + 1) k ≡ owner ++ b'/' ∷ name
  repository_text k e =
      substr-behind url a (owner ++ b'/' ∷ name) t (last_delim + 1) k (whole ∙ simp (append_assoc))
        start (omega (arith, length-append owner (b'/' ∷ name)))

  before_rest : url ≡ (a ++ (owner ++ b'/' ∷ name)) ++ t
  before_rest = whole ∙ simp (append_assoc)

  rest_start : name_end ≡ length (a ++ (owner ++ b'/' ∷ name))
  rest_start =
      omega (arith, length-append a (owner ++ b'/' ∷ name), length-append owner (b'/' ∷ name))

  parse_repository-path :
      (p : Text)
      → t ≡ b'/' ∷ p
      → parse_repository url kind last_delim
        ≡ ok (record default_url {
          repo_type = kind;
          repository = owner ++ b'/' ∷ name;
          path = b'/' ∷ p;
        })
  unfolding parse_repository
  parse_repository-path p e =
      let slash : find url (codes "/") (repo_delim + 1) ≡ some name_end =
        find-behind url (a ++ (owner ++ b'/' ∷ [])) name p b'/' (repo_delim + 1) name_end
          (before_name ∙ ap (λ l. (a ++ (owner ++ b'/' ∷ [])) ++ (name ++ l)) e) name_start refl
          name_slash in
      let path_text : drop name_end url ≡ b'/' ∷ p =
        ap (drop name_end) before_rest
        ∙ drop-append name_end (a ++ (owner ++ b'/' ∷ name)) t rest_start
        ∙ e in
      let repository = repository_text (name_end - last_delim - 1) refl in
      elim (Option-cases (find url (codes "@") (repo_delim + 1))) [
        | inl at ↦ rw (found_repository, slash, at, repository, path_text, parse_repository) refl
        | inr (k, at) ↦
            let behind =
              le-find-behind url (a ++ (owner ++ b'/' ∷ [])) name t b'@' (repo_delim + 1) k
                before_name name_start name_at at in
            let later : ltb k name_end ≡ false = ground arith in
            rw (found_repository, slash, at, later, repository, path_text, parse_repository) refl
      ]

  parse_repository-revision :
      (revision p : Text)
      → t ≡ b'@' ∷ (revision ++ b'/' ∷ p)
      → is_free_of b'/' revision ≡ true
      → parse_repository url kind last_delim
        ≡ ok (record default_url {
          repo_type = kind;
          repository = owner ++ b'/' ∷ name;
          revision = revision;
          path = b'/' ∷ p;
        })
  unfolding parse_repository
  parse_repository-revision revision p e revision_slash =
      let delim = name_end + 1 + length revision in
      let before = a ++ (owner ++ b'/' ∷ []) in
      let all = a ++ (owner ++ b'/' ∷ name) in
      let at : find url (codes "@") (repo_delim + 1) ≡ some name_end =
        find-behind url before name (revision ++ b'/' ∷ p) b'@' (repo_delim + 1) name_end
          (before_name ∙ ap (λ l. before ++ (name ++ l)) e) name_start refl name_at in
      let slash_free =
        is_free_of-append b'/' name (b'@' ∷ revision) name_slash
          (unfold is_free_of in revision_slash) in
      let slash : find url (codes "/") (repo_delim + 1) ≡ some delim =
        find-behind url before (name ++ b'@' ∷ revision) p b'/' (repo_delim + 1) delim
          (before_name ∙ ap (λ l. before ++ (name ++ l)) e ∙ simp (append_assoc)) name_start
          (omega (arith, length-append name (b'@' ∷ revision))) slash_free in
      let earlier : ltb name_end delim ≡ true = ground arith in
      let repository = repository_text (name_end - last_delim - 1) refl in
      let revision_text : substr url (name_end + 1) (delim - name_end - 1) ≡ revision =
        substr-behind url (all ++ b'@' ∷ []) revision (b'/' ∷ p) (name_end + 1)
          (delim - name_end - 1) (before_rest ∙ ap (λ l. all ++ l) e ∙ simp (append_assoc))
          (omega (arith, rest_start, length-append all (b'@' ∷ []))) (omega arith) in
      let path_text : drop delim url ≡ b'/' ∷ p =
        ap (drop delim) (before_rest ∙ ap (λ l. all ++ l) e ∙ simp (append_assoc))
        ∙ drop-append delim (all ++ b'@' ∷ revision) (b'/' ∷ p)
            (omega (arith, rest_start, length-append all (b'@' ∷ revision))) in
      rw
        (
          found_repository, slash, at, earlier, repository, revision_text, path_text,
          parse_repository,
        )
        refl

-- The type of a repository is found and accepted.
module _ (kind rest : Text) (known : (kind ≡ codes "datasets") ⊎ (kind ≡ codes "spaces")) where
  abbrev typed : Text
  typed = codes "hf://" ++ (kind ++ b'/' ∷ rest)

  kind_slash : is_free_of b'/' kind ≡ true
  unfolding is_free_of
  kind_slash = elim known [ inl e ↦ rw e refl | inr e ↦ rw e refl ]

  kind_known : not (text_eq kind (codes "datasets")) && not (text_eq kind (codes "spaces")) ≡ false
  unfolding text_eq
  kind_known = elim known [ inl e ↦ rw e refl | inr e ↦ rw e refl ]

  hf_url_parse-typed : hf_url_parse typed ≡ parse_repository typed kind (5 + length kind)
  unfolding hf_url_parse
  hf_url_parse-typed =
      let slash : find typed (codes "/") 5 ≡ some (5 + length kind) =
        find-behind typed (codes "hf://") kind rest b'/' 5 (5 + length kind) refl refl refl
          kind_slash in
      let text : substr typed 5 (5 + length kind - 5) ≡ kind =
        substr-behind typed (codes "hf://") kind (b'/' ∷ rest) 5 (5 + length kind - 5) refl refl
          (omega arith) in
      rw (slash, text, kind_known, hf_url_parse) refl

abbrev made : Text → Text → Text → Text → Text → ParsedHfUrl
made owner name kind revision p = record {
  path = b'/' ∷ p;
  repository = owner ++ b'/' ∷ name;
  endpoint = default_endpoint;
  revision = revision;
  repo_type = kind;
}

module _ (owner name kind p : Text) (known : (kind ≡ codes "datasets") ⊎ (kind ≡ codes "spaces"))
    (owner_slash : is_free_of b'/' owner ≡ true) (name_slash : is_free_of b'/' name ≡ true)
    (name_at : is_free_of b'@' name ≡ true) where
  abbrev start_text : Text
  start_text = codes "hf://" ++ (kind ++ b'/' ∷ [])

  length-start_text : 5 + length kind + 1 ≡ length start_text
  length-start_text = omega (arith, length-append kind (b'/' ∷ []))

  split_url_at :
      (t : Text)
      → typed kind ((owner ++ b'/' ∷ name) ++ t) known ≡ start_text ++ (owner ++ b'/' ∷ (name ++ t))
  split_url_at t = simp (append_assoc)

  hf_url_parse-main :
      hf_url_parse (get_hf_url (made owner name kind (codes "main") p))
      ≡ ok (made owner name kind (codes "main") p)
  unfolding get_hf_url
  hf_url_parse-main =
      hf_url_parse-typed kind ((owner ++ b'/' ∷ name) ++ b'/' ∷ p) known
      ∙ parse_repository-path (typed kind ((owner ++ b'/' ∷ name) ++ b'/' ∷ p) known) kind
          start_text owner name (b'/' ∷ p) (5 + length kind) (split_url_at (b'/' ∷ p))
          length-start_text owner_slash name_slash name_at p refl

  hf_url_parse-revision :
      (revision : Text)
      → text_eq revision (codes "main") ≡ false
      → is_free_of b'/' revision ≡ true
      → hf_url_parse (get_hf_url (made owner name kind revision p))
        ≡ ok (made owner name kind revision p)
  unfolding get_hf_url
  hf_url_parse-revision revision other revision_slash =
      let t = b'@' ∷ (revision ++ b'/' ∷ p) in
      rw other (
        hf_url_parse-typed kind ((owner ++ b'/' ∷ name) ++ t) known
        ∙ parse_repository-revision (typed kind ((owner ++ b'/' ∷ name) ++ t) known) kind start_text
            owner name t (5 + length kind) (split_url_at t) length-start_text owner_slash name_slash
            name_at revision p refl revision_slash)

  hf_url_parse-made :
      (revision : Text)
      → is_free_of b'/' revision ≡ true
      → hf_url_parse (get_hf_url (made owner name kind revision p))
        ≡ ok (made owner name kind revision p)
  hf_url_parse-made revision revision_slash = elim (Bool-cases (text_eq revision (codes "main"))) [
    | inl same ↦ let e = text_eq_sound revision (codes "main") same in rw e hf_url_parse-main
    | inr other ↦ hf_url_parse-revision revision other revision_slash
  ]

-- HFUrlParse reads back what GetHFUrl prints: for every URL of a dataset or a space whose repository is
-- an owner and a name with one slash between them, whose name holds no '@' and whose revision holds no
-- slash, whose path begins with a slash and whose endpoint is the default.
pub hf_url_parse-get_hf_url :
    (owner name p : Text) (url : ParsedHfUrl)
    → IsPlain owner name url
    → url.path ≡ b'/' ∷ p
    → hf_url_parse (get_hf_url url) ≡ ok url
hf_url_parse-get_hf_url owner name p url plain path_of =
    let parts : url ≡ made owner name url.repo_type url.revision p =
      ground (arith, plain.repository_of, plain.endpoint_of, path_of) in
    rw parts (
      hf_url_parse-made owner name url.repo_type p plain.repo_type_known plain.owner_slash
        plain.name_slash plain.name_at url.revision plain.revision_slash)
