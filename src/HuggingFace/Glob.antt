-- ===== src/HuggingFace/Glob.antt =====
-- HuggingFaceFileSystem::Glob: the pages of a listing are requested one by one, for each directory
-- found, and the files are matched against the pattern.
mod Crawls
mod Matches
mod Tests
use haybarn_httpfs.Base.{
  ℕ, zero, suc, ◌-◌, Bool, true, false, ◌||◌, not, Option, none, some, List, [], ◌∷◌, ◌++◌, leb,
  ◌==◌, if◌then◌else◌, length, set, take, drop, Text, codes, text_eq, is_empty, starts_with,
  find_first, substr, ends_with, lookup,
}
use mathlib.Core.Option
use haybarn_httpfs.Http.Types.{
  io, http, internal, http_get_error, bad_link_header, no_next_link, out_of_fuel, Response, Result,
  ok, throw, plain,
}
use haybarn_httpfs.Http.Range.{Event, responded, data_arrived, Exchange, settle}
use haybarn_httpfs.S3.Glob.{any_depth, any_suffix}
use haybarn_httpfs.HuggingFace.Url.{ParsedHfUrl, hf_url_parse, get_hf_url, get_tree_url}
use haybarn_httpfs.HuggingFace.Listing.{parse_list_result}

-- StringUtil::Split at a character and at a text, StringUtil::Trim, FileSystem::JoinPath, and DuckDB's
-- Glob of a segment and its pattern.
pub record HfUtil : Type 0 where
  pub split : ℕ → Text → List Text
  pub split_text : Text → Text → List Text
  pub trim : Text → Text
  pub join_path : Text → Text → Text
  pub glob : Text → Text → Bool

-- The inner split of a link and what is made of it: `none` for a link that is not the next page.
unfoldable pub next_link : HfUtil → List Text → Result (Option Text)
unfolding text_eq starts_with ends_with substr
next_link util (link ∷ rel ∷ []) =
    let trimmed = util.trim link in
    if text_eq (util.trim rel) (codes "rel=\"next\"")
    then (if not (starts_with trimmed (codes "<")) || not (ends_with trimmed (codes ">"))
        then throw (plain io bad_link_header)
        else ok (some (substr trimmed 1 (length trimmed - 2))))
    else ok none
next_link util _ = throw (plain io bad_link_header)

unfoldable pub find_next_link : HfUtil → List Text → Result Text
unfolding next_link
find_next_link util [] = throw (plain io no_next_link)
find_next_link util (link ∷ links) = elim (next_link util (util.split b';' link)) [
  | throw e ↦ throw e
  | ok (some url) ↦ ok url
  | ok none ↦ find_next_link util links
]

unfoldable pub parse_next_url_from_link_header : HfUtil → Text → Result Text
unfolding find_next_link
parse_next_url_from_link_header util content = find_next_link util (util.split b',' content)

-- What the callbacks of a request for a page collect.
pub record Collected : Type 0 where
  pub link : Text
  pub response : Text

unfoldable pub collect : List Event → Collected → Result Collected
collect [] c = ok c
collect (responded r ∷ events) c =
    if leb 400 r.status
    then throw (plain http http_get_error)
    else elim (lookup (codes "Link") r.headers) [
      | none ↦ collect events c
      | some link ↦ collect events (record c { link = link })
    ]
collect (data_arrived chunk ∷ events) c =
    collect events (record c { response = c.response ++ chunk })

-- The path that is requested behind the endpoint.
unfoldable pub page_path : Text → Text → Text
unfolding starts_with
page_path endpoint next_page_url =
    let fragment =
      if starts_with next_page_url endpoint
      then drop (length endpoint) next_page_url
      else next_page_url in
    if starts_with fragment (codes "/") then fragment else b'/' ∷ fragment

-- The request is sent by the URL. The result is the response with the next page's URL, empty when
-- there is none. A null response is not returned by HTTPUtil for these requests.
unfoldable pub list_hf_request : HfUtil → (Text → Exchange) → Text → Text → Result (Text × Text)
unfolding page_path collect parse_next_url_from_link_header settle
list_hf_request util server endpoint next_page_url =
    let exchange = server (endpoint ++ page_path endpoint next_page_url) in
    let collected = collect exchange.events (record { link = []; response = [] }) in
    let settled : Result (Option Response) = elim collected [
      | throw e ↦ exchange.on_throw e
      | ok c ↦ ok exchange.response
    ] in
    elim settled [
      | throw e ↦ throw e
      | ok none ↦ throw (plain io http_get_error)
      | ok (some r) ↦
          if not (r.status == 200) then throw (plain io http_get_error) else elim collected [
            | throw e ↦ throw e
            | ok c ↦
                if is_empty c.link
                then ok (c.response, [])
                else elim (parse_next_url_from_link_header util c.link) [
                  | throw e ↦ throw e
                  | ok next ↦ ok (c.response, next)
                ]
          ]
    ]

-- The last element of a vector, behind the others.
unfoldable pub pop_back {ℓ} : {A : Type ℓ} → List A → Option (List A × A)
pop_back [] = none
pop_back (x ∷ xs) = elim (pop_back xs) [
  | none ↦ some ([], x)
  | some (rest, last) ↦ some (x ∷ rest, last)
]

-- The variables of the loop: the next page's URL, the files and the directories.
pub record Crawl : Type 0 where
  pub next_page_url : Text
  pub files : List Text
  pub dirs : List Text

module _ (util : HfUtil) (server : Text → Exchange) (repository : ParsedHfUrl)
    (hf_max_per_page : ℕ) where
  abbrev pub tree_url : Text → Text
  tree_url dir = get_tree_url util.join_path (record repository { path = dir }) hf_max_per_page

  -- ListHFRequest, then ParseListResult.
  unfoldable pub list_page : Text → List Text → List Text → Result Crawl
  unfolding list_hf_request parse_list_result
  list_page url files dirs = elim (list_hf_request util server repository.endpoint url) [
    | throw e ↦ throw e
    | ok (response, next) ↦ elim (parse_list_result response files dirs) [
      | throw e ↦ throw e
      | ok s ↦ ok (record { next_page_url = next; files = s.files; dirs = s.directories })
    ]
  ]

  -- The URL of the next request with the directories left, `none` when the loop breaks.
  unfoldable pub next_request : Crawl → Option (Text × List Text)
  unfolding pop_back get_tree_url
  next_request c =
      if is_empty c.next_page_url
      then elim (pop_back c.dirs) [ none ↦ none | some (rest, dir) ↦ some (tree_url dir, rest) ]
      else some (c.next_page_url, c.dirs)

  -- The loop, on fuel for its requests.
  unfoldable pub crawl : ℕ → Crawl → Result (List Text)
  unfolding next_request list_page
  crawl zero c = throw (plain internal out_of_fuel)
  crawl (suc fuel) c = elim (next_request c) [
    | none ↦ ok c.files
    | some (url, dirs) ↦ elim (list_page url c.files dirs) [
      | throw e ↦ throw e
      | ok c' ↦ crawl fuel c'
    ]
  ]

-- Match (hffs.cpp), on the segments of a key and those of the pattern.
unfoldable pub match_key : (Text → Text → Bool) → List Text → List Text → Bool
unfolding any_suffix text_eq
match_key glob [] [] = true
match_key glob [] (k ∷ key) = false
match_key glob (p ∷ pattern) [] = false
match_key glob (p ∷ pattern) (k ∷ key) =
    let deeper = any_suffix (λ suffix. match_key glob pattern suffix) (k ∷ key) in
    let next = match_key glob pattern key in
    if text_eq p any_depth
    then (if is_empty pattern then true else deeper)
    else if not (glob k p)
    then false
    else next

-- The files that match, as URLs.
unfoldable pub matching_urls : HfUtil → ParsedHfUrl → List Text → List Text → List Text
unfolding match_key get_hf_url
matching_urls util repository pattern [] = []
matching_urls util repository pattern (file ∷ files) =
    let rest = matching_urls util repository pattern files in
    if match_key util.glob pattern (util.split_text (codes "/") file)
    then get_hf_url (record repository { path = file }) ∷ rest
    else rest

-- The position of the first of some characters (find_first_of).
unfoldable pub find_first_of : Text → Text → Option ℕ
unfolding find_first
find_first_of [] set = none
find_first_of (c ∷ s) set = elim (find_first set (c ∷ [])) [
  | some _ ↦ some 0
  | none ↦ Option.map suc (find_first_of s set)
]

-- The text before its last slash, empty when it has none.
unfoldable pub before_last_slash : Text → Text
before_last_slash [] = []
before_last_slash (c ∷ s) = elim (find_first s (codes "/")) [
  | some _ ↦ c ∷ before_last_slash s
  | none ↦ []
]

-- The result for the path of the pattern; `fuel` bounds the requests.
unfoldable pub glob_path :
    HfUtil → (Text → Exchange) → ℕ → ℕ → Text → ParsedHfUrl → Result (List Text)
unfolding find_first_of before_last_slash crawl matching_urls
glob_path util server hf_max_per_page fuel path repository =
    elim (find_first_of repository.path (codes "*[\\")) [
      | none ↦ ok (path ∷ [])
      | some first_wildcard_pos ↦
          let shared_path = before_last_slash (take first_wildcard_pos repository.path) in
          let start : Crawl = record { next_page_url = []; files = []; dirs = shared_path ∷ [] } in
          elim (crawl util server repository hf_max_per_page fuel start) [
            | throw e ↦ throw e
            | ok files ↦
                ok (
                  matching_urls util repository (util.split_text (codes "/") repository.path) files)
          ]
    ]

-- HuggingFaceFileSystem::Glob.
unfoldable pub glob : HfUtil → (Text → Exchange) → ℕ → ℕ → Text → Result (List Text)
unfolding glob_path hf_url_parse
glob util server hf_max_per_page fuel path = elim (hf_url_parse path) [
  | throw e ↦ throw e
  | ok repository ↦ glob_path util server hf_max_per_page fuel path repository
]
