-- ===== src/HuggingFace/Listing/Tests.antt =====
-- Runs of the listing scan.
use haybarn_httpfs.Base.{◌≡◌, refl, true, false, List, [], ◌∷◌, arith, codes, is_free_of}
use haybarn_httpfs.Http.Types.{ok}
use haybarn_httpfs.HuggingFace.Listing.{base, scan, started, parse_list_result}
use haybarn_httpfs.HuggingFace.Listing.Pages.{
  text, object, Listed, print_page, parse_list_result-print_page,
}

abbrev data_file : Listed
data_file = record {
  is_file = true;
  path = codes "a/b.csv";
  before = [];
  between = text (codes ",\"oid\":\"6f\",\"size\":3,") ∷ [];
  after = text (codes ",\"lfs\":") ∷ object (codes "\"size\":3") ∷ [];
}

abbrev folder : Listed
folder = record {
  is_file = false;
  path = codes "a/c";
  before = [];
  between = text (codes ",") ∷ [];
  after = [];
}

abbrev page : List Listed
page = data_file ∷ folder ∷ []

page_text :
    print_page page
    ≡ codes
        "[{\"type\":\"file\",\"oid\":\"6f\",\"size\":3,\"path\":\"a/b.csv\",\"lfs\":{\"size\":3}},{\"type\":\"directory\",\"path\":\"a/c\"}]"
page_text = refl

parse_list_result-print_page_example :
    (parse_list_result (print_page page) [] []
      ≡ ok (started (codes "/a/b.csv" ∷ []) (codes "/a/c" ∷ [])))
    × (scan 200 base (started [] []) (print_page page) ≡ parse_list_result (print_page page) [] [])
unfolding is_free_of
parse_list_result-print_page_example =
    parse_list_result-print_page 200 page [] [] refl (omega arith)
