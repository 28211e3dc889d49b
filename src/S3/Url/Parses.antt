-- ===== src/S3/Url/Parses.antt =====
-- What S3UrlParse reads out of a URL.
use haybarn_httpfs.Base.{
  ◌+◌, ◌-◌, ◌≡◌, refl, sym, ap, ◌∙◌, Bool, true, false, some, [], ◌∷◌, ◌++◌, arith, if◌then◌else◌,
  length, drop, Text, codes, text_eq, is_empty, starts_with, find_first, find, substr, drop-drop,
  drop-append, take-append, is_free_of, find_first-character, find_first-absent,
}
use haybarn_httpfs.Http.Types.{ok, ◌>>=◌}
use haybarn_httpfs.S3.Auth.{S3AuthParams}
use haybarn_httpfs.S3.Url.{
  UrlUtil, ParsedS3Url, first_prefix, try_get_prefix, get_prefix, split_query, split_endpoint,
  is_vhost, derive_url, split_url, prefix_end, s3_url_parse,
}

-- The URL of an object.
abbrev pub object_url : Text → Text → Text
object_url bucket key = codes "s3://" ++ (bucket ++ (b'/' ∷ key))

module _ (bucket key : Text) (no_slash_in : is_free_of b'/' bucket ≡ true) where
  found_slashes : find (object_url bucket key) (codes "//") 0 ≡ some 3
  unfolding find find_first starts_with
  found_slashes = refl

  found_slash : find (object_url bucket key) (codes "/") 5 ≡ some (5 + length bucket)
  unfolding find
  found_slash = rw (find_first-character b'/' bucket key no_slash_in) refl

  bucket_of : substr (object_url bucket key) 5 (5 + length bucket - 5) ≡ bucket
  unfolding substr
  bucket_of = take-append (5 + length bucket - 5) bucket (b'/' ∷ key) (omega arith)

  key_of : drop (5 + length bucket) (object_url bucket key) ≡ b'/' ∷ key
  key_of =
      sym (drop-drop (5 + length bucket) 5 (length bucket) (object_url bucket key) refl)
      ∙ drop-append (length bucket) bucket (b'/' ∷ key) refl

  no_query :
      (compatible : Bool)
      → is_free_of b'?' (object_url bucket key) ≡ true
      → split_query compatible (object_url bucket key) (5 + length bucket)
        ≡ (b'/' ∷ key, [], object_url bucket key)
  unfolding split_query find
  no_query true free = ap (λ l. (l, [], object_url bucket key)) key_of
  no_query false free =
      rw (find_first-absent b'?' (object_url bucket key) free, split_query)
        (ap (λ l. (l, [], object_url bucket key)) key_of)

  get_prefix-s3 :
      (util : UrlUtil) (url : Text)
      → starts_with (util.lower url) (codes "s3://") ≡ true
      → get_prefix util url ≡ ok (codes "s3://")
  unfolding get_prefix try_get_prefix first_prefix
  get_prefix-s3 util url lowered = rw (lowered, get_prefix, try_get_prefix, first_prefix) refl

  endpoint_of :
      (p : S3AuthParams)
      → is_free_of b'/' p.endpoint ≡ true
      → split_endpoint p.endpoint ≡ (p.endpoint, [])
  unfolding split_endpoint find
  endpoint_of p free = rw (find_first-absent b'/' p.endpoint free, split_endpoint) refl

  split_at_slash :
      (p : S3AuthParams)
      → split_url p (codes "s3://") (object_url bucket key) 5 (some (5 + length bucket))
        ≡ derive_url p
            (codes "s3://")
            bucket
            (split_query p.s3_url_compatibility_mode (object_url bucket key) (5 + length bucket))
  unfolding split_url
  split_at_slash p =
      ap
        (λ b.
          derive_url p (codes "s3://") b
            (split_query p.s3_url_compatibility_mode (object_url bucket key) (5 + length bucket)))
        bucket_of

  abbrev pub parsed : S3AuthParams → ParsedS3Url
  parsed p = record {
    http_proto = if p.use_ssl then codes "https://" else codes "http://";
    prefix = codes "s3://";
    host = if is_vhost p.url_style then bucket ++ codes "." ++ p.endpoint else p.endpoint;
    bucket = bucket;
    key = key;
    path =
        (if is_vhost p.url_style
          then []
          else if text_eq p.url_style (codes "path")
          then codes "/" ++ bucket
          else [])
        ++ (b'/' ∷ key);
    query_param = [];
    trimmed_s3_url = object_url bucket key;
  }

  derived :
      (p : S3AuthParams)
      → is_empty bucket ≡ false
      → split_endpoint p.endpoint ≡ (p.endpoint, [])
      → derive_url p (codes "s3://") bucket (b'/' ∷ key, [], object_url bucket key) ≡ ok (parsed p)
  unfolding derive_url
  derived p some_bucket endpoint = rw (some_bucket, endpoint, derive_url) refl

  -- What is read out of an s3:// URL: the bucket up to the slash, the key behind it, the path of the
  -- object under its endpoint, and the host, in the way of the URL style. The bucket is not empty and
  -- holds no slash, the URL holds no '?' and the endpoint no '/'; StringUtil::Lower keeps the scheme.
  pub s3_url_parse-object_url :
      (util : UrlUtil) (p : S3AuthParams)
      → is_empty bucket ≡ false
      → is_free_of b'?' (object_url bucket key) ≡ true
      → is_free_of b'/' p.endpoint ≡ true
      → starts_with (util.lower (object_url bucket key)) (codes "s3://") ≡ true
      → s3_url_parse util (object_url bucket key) p ≡ ok (parsed p)
  unfolding s3_url_parse
  s3_url_parse-object_url util p some_bucket free plain_endpoint lowered =
      let url = object_url bucket key in
      let scheme = codes "s3://" in
      let undivided = endpoint_of p plain_endpoint in
      ap
        (λ r. r >>= λ prefix.
          split_url p prefix url (prefix_end (find url (codes "//") 0))
            (find url (codes "/") (prefix_end (find url (codes "//") 0))))
        (get_prefix-s3 util url lowered)
      ∙ ap (λ o. split_url p scheme url (prefix_end o) (find url (codes "/") (prefix_end o)))
          found_slashes
      ∙ ap (split_url p scheme url 5) found_slash
      ∙ split_at_slash p
      ∙ ap (derive_url p scheme bucket) (no_query p.s3_url_compatibility_mode free)
      ∙ derived p some_bucket undivided
