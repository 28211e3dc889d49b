-- ===== src/HuggingFace/Url/Tests.antt =====
-- Runs of the Hugging Face URLs.
use haybarn_httpfs.Base.{◌≡◌, refl, inl, codes, is_free_of}
use haybarn_httpfs.Http.Types.{ok}
use haybarn_httpfs.HuggingFace.Url.{ParsedHfUrl, default_url, hf_url_parse, get_hf_url}
use haybarn_httpfs.HuggingFace.Url.Parses.{IsPlain, hf_url_parse-get_hf_url}

abbrev url : ParsedHfUrl
url = record default_url {
  repository = codes "me/data";
  revision = codes "v1";
  path = codes "/a/b.parquet";
}

get_hf_url_run : get_hf_url url ≡ codes "hf://datasets/me/data@v1/a/b.parquet"
unfolding get_hf_url
get_hf_url_run = refl

url-IsPlain : IsPlain (codes "me") (codes "data") url
unfolding is_free_of
url-IsPlain = record {
  repo_type_known = inl refl;
  repository_of = refl;
  owner_slash = refl;
  name_slash = refl;
  name_at = refl;
  revision_slash = refl;
  endpoint_of = refl;
}

hf_url_parse-get_hf_url_example : hf_url_parse (get_hf_url url) ≡ ok url
hf_url_parse-get_hf_url_example =
    hf_url_parse-get_hf_url (codes "me") (codes "data") (codes "a/b.parquet") url url-IsPlain refl
