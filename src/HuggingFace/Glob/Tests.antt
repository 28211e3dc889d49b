-- ===== src/HuggingFace/Glob/Tests.antt =====
-- A run of Glob over two directories.
use haybarn_httpfs.Base.{
  ℕ, suc, ◌≡◌, refl, Bool, true, false, none, some, List, [], ◌∷◌, ◌++◌, arith, ◌==◌, if◌then◌else◌,
  length, Text, codes, text_eq, starts_with, find_first, ends_with, lookup, is_free_of,
}
use haybarn_httpfs.Http.Types.{Response, ok, throw}
use haybarn_httpfs.Http.Range.{responded, data_arrived, Exchange}
use haybarn_httpfs.S3.Glob.{any_suffix}
use haybarn_httpfs.HuggingFace.Url.{
  ParsedHfUrl, default_url, hf_url_parse, get_hf_url, get_tree_url,
}
use haybarn_httpfs.HuggingFace.Listing.Pages.{
  text, Listed, print_page, is_plain, paths, parse_list_result-print_page,
}
use haybarn_httpfs.HuggingFace.Glob.{
  HfUtil, collect, page_path, list_hf_request, match_key, matching_urls, find_first_of,
  before_last_slash, glob,
}
use haybarn_httpfs.HuggingFace.Glob.Crawls.{
  Finds, list_page-lists, last_page, Walk, done, directory, glob-Walk,
}

-- The parts of a text between the occurrences of a character.
split_on : ℕ → Text → List Text
split_on d [] = [] ∷ []
split_on d (c ∷ s) = elim (split_on d s) [
  | [] ↦ []
  | part ∷ parts ↦ if c == d then [] ∷ (part ∷ parts) else (c ∷ part) ∷ parts
]

abbrev util : HfUtil
unfolding split_on text_eq ends_with
util = record {
  split = split_on;
  split_text = λ d s. split_on b'/' s;
  trim = λ s. s;
  join_path = λ a b. a ++ (b'/' ∷ b);
  glob = λ k p. if text_eq p (codes "*.csv") then ends_with k (codes ".csv") else text_eq k p;
}

abbrev listed : Bool → Text → Listed
listed is_file path = record {
  is_file = is_file;
  path = path;
  before = [];
  between = text (codes ",") ∷ [];
  after = [];
}

abbrev root_page : List Listed
root_page = listed false (codes "d") ∷ listed true (codes "a.csv") ∷ []

abbrev sub_page : List Listed
sub_page = listed true (codes "d/b.csv") ∷ listed true (codes "d/c.txt") ∷ []

abbrev success : Text → Response
success body = record {
  status = 200;
  headers = [];
  body = body;
  success = true;
  request_error = none;
}

abbrev answer : Text → Exchange
answer body = record {
  events = responded (success body) ∷ data_arrived body ∷ [];
  response = some (success body);
  on_throw = throw;
  client = 0;
}

abbrev repository : ParsedHfUrl
repository = record default_url { repository = codes "u/r"; path = codes "/**/*.csv" }

abbrev root_url : Text
root_url = codes "https://huggingface.co/api/datasets/u/r/tree/main"

server : Text → Exchange
unfolding text_eq
server url =
    if text_eq url root_url then answer (print_page root_page) else answer (print_page sub_page)

-- A page that the server gives for a URL.
page-Finds :
    (url : Text) (page : List Listed)
    → is_plain page ≡ true
    → list_hf_request util server repository.endpoint url ≡ ok (print_page page, [])
    → Finds util server repository 0 url (paths true page) (paths false page) []
page-Finds url page plain_page e files dirs =
    list_page-lists util server repository 0 url (print_page page) [] files dirs (paths true page)
      (paths false page) e
      (parse_list_result-print_page (suc (length (print_page page))) page files dirs plain_page
        (omega arith)).0

root-Finds : Finds util server repository 0 root_url (codes "/a.csv" ∷ []) (codes "/d" ∷ []) []
unfolding is_free_of list_hf_request server page_path collect starts_with lookup
root-Finds = page-Finds root_url root_page refl refl

sub-Finds :
    Finds util server repository 0
      (root_url ++ codes "/d")
      (codes "/d/b.csv" ∷ codes "/d/c.txt" ∷ [])
      []
      []
unfolding is_free_of list_hf_request server page_path collect starts_with lookup
sub-Finds = page-Finds (root_url ++ codes "/d") sub_page refl refl

abbrev all_files : List Text
all_files = codes "/a.csv" ∷ codes "/d/b.csv" ∷ codes "/d/c.txt" ∷ []

walk : Walk util server repository 0 ([] ∷ []) all_files 2
unfolding get_tree_url util
walk =
    let below : Walk util server repository 0 (codes "/d" ∷ [])
        (codes "/d/b.csv" ∷ codes "/d/c.txt" ∷ []) 1 =
      directory (codes "/d") (last_page sub-Finds refl) (done refl refl refl) (done refl refl refl)
        refl refl refl in
    directory [] (last_page root-Finds refl) below (done refl refl refl) refl refl refl

glob-Walk_example :
    glob util server 0 5 (codes "hf://datasets/u/r/**/*.csv")
    ≡ ok (codes "hf://datasets/u/r/a.csv" ∷ codes "hf://datasets/u/r/d/b.csv" ∷ [])
unfolding matching_urls get_hf_url match_key any_suffix text_eq find_first_of find_first
    before_last_slash hf_url_parse ends_with split_on
glob-Walk_example =
    glob-Walk util server repository 0 5 2 1 (codes "hf://datasets/u/r/**/*.csv") all_files refl
      refl walk (omega arith)
