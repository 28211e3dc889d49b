-- ===== src/HuggingFace/Url.antt =====
-- URLs of Hugging Face repositories: HFUrlParse, GetHFUrl, GetTreeUrl and GetFileUrl.
mod Parses
mod Tests
use haybarn_httpfs.Base.{
  ℕ, ◌+◌, ◌-◌, ◌&&◌, not, none, some, [], ◌∷◌, ◌++◌, ltb, if◌then◌else◌, drop, Text, codes, text_eq,
  starts_with, find, substr, to_string,
}
use haybarn_httpfs.Http.Types.{
  io, internal, bad_hf_url, bad_repo_type, not_hf_url, Result, ok, throw, plain,
}

pub record ParsedHfUrl : Type 0 where
  pub path : Text
  pub repository : Text
  pub endpoint : Text
  pub revision : Text
  pub repo_type : Text

-- The defaults of the fields.
abbrev pub default_endpoint : Text
default_endpoint = codes "https://huggingface.co"

abbrev pub default_url : ParsedHfUrl
default_url = record {
  path = [];
  repository = [];
  endpoint = default_endpoint;
  revision = codes "main";
  repo_type = codes "datasets";
}

-- The repository, the revision and the path, from where the repository type ends (`last_delim`).
unfoldable pub parse_repository : Text → Text → ℕ → Result ParsedHfUrl
unfolding find substr
parse_repository url repo_type last_delim = elim (find url (codes "/") (last_delim + 1)) [
  | none ↦ throw (plain io bad_hf_url)
  | some repo_delim ↦
      let next_at = find url (codes "@") (repo_delim + 1) in
      elim (find url (codes "/") (repo_delim + 1)) [
        | none ↦ throw (plain io bad_hf_url)
        | some next_slash ↦
            let unrevised = ok (record default_url {
              repo_type = repo_type;
              repository = substr url (last_delim + 1) (next_slash - last_delim - 1);
              path = drop next_slash url;
            }) in
            elim next_at [
              | none ↦ unrevised
              | some at ↦
                  if ltb at next_slash
                  then ok (record default_url {
                    repo_type = repo_type;
                    repository = substr url (last_delim + 1) (at - last_delim - 1);
                    revision = substr url (at + 1) (next_slash - at - 1);
                    path = drop next_slash url;
                  })
                  else unrevised
            ]
      ]
]

unfoldable pub hf_url_parse : Text → Result ParsedHfUrl
unfolding parse_repository find substr starts_with text_eq
hf_url_parse url =
    if not (starts_with url (codes "hf://"))
    then throw (plain internal not_hf_url)
    else elim (find url (codes "/") 5) [
      | none ↦ throw (plain io bad_hf_url)
      | some curr_delim ↦
          let repo_type = substr url 5 (curr_delim - 5) in
          if not (text_eq repo_type (codes "datasets")) && not (text_eq repo_type (codes "spaces"))
          then throw (plain io bad_repo_type)
          else parse_repository url repo_type curr_delim
    ]

unfoldable pub get_hf_url : ParsedHfUrl → Text
unfolding text_eq
get_hf_url url =
    codes "hf://"
    ++ (url.repo_type
        ++ (b'/'
            ∷ (url.repository
                ++ (if text_eq url.revision (codes "main")
                    then url.path
                    else b'@' ∷ (url.revision ++ url.path)))))

-- `join_path` is FileSystem::JoinPath.
module _ (join_path : Text → Text → Text) where
  unfoldable pub get_tree_url : ParsedHfUrl → ℕ → Text
  get_tree_url url limit =
      join_path
        (join_path
          (join_path (join_path (join_path url.endpoint (codes "api")) url.repo_type)
            url.repository)
          (codes "tree"))
        url.revision
      ++ (url.path ++ (if ltb 0 limit then codes "?limit=" ++ to_string limit else []))

  unfoldable pub get_file_url : ParsedHfUrl → Text
  get_file_url url =
      join_path
        (join_path (join_path (join_path url.endpoint url.repo_type) url.repository)
          (codes "resolve"))
        url.revision
      ++ url.path
