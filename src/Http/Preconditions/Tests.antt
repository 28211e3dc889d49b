-- ===== src/Http/Preconditions/Tests.antt =====
-- Runs of the conditional reads.
use haybarn_httpfs.Base.{
  ◌+◌, ◌≡◌, ap, ◌∙◌, inl, inr, true, false, none, some, List, [], ◌∷◌, arith, if◌then◌else◌,
  Bool-cases, replicate, Text, codes, text_eq, text_eq_sound, text_eq_iff, lookup, to_string,
  or_else, or_else-none,
}
use haybarn_httpfs.Http.Types.{http, plain}
use haybarn_httpfs.Http.Handle.{Params, Flags, FileHandle, HttpUtil}
use haybarn_httpfs.Http.Preconditions.{
  if_match, if_unmodified_since, is_strong_etag, add_consistency_preconditions,
}
use haybarn_httpfs.Http.Preconditions.Validators.{
  IsHeaderMap, add_consistency_preconditions-validators,
}

-- unordered_map::insert, which keeps a value that is there.
abbrev insert_new : Text → Text → List (Text × Text) → List (Text × Text)
insert_new k v [] = (k, v) ∷ []
insert_new k v ((i, w) ∷ m) =
    let behind = insert_new k v m in (i, w) ∷ (if text_eq i k then m else behind)

abbrev util : HttpUtil
util = record {
  insert_header = insert_new;
  format_http_date = λ t. to_string t;
  http_exception = λ m r. plain http m;
  create_client = λ s. s.requests + 100;
  elapsed = λ s. 1;
}

abbrev params : Params
params = record {
  user_agent = [];
  extra_headers = [];
  pre_merged_headers = false;
  unsafe_disable_etag_checks = false;
  s3_version_id_pinning = false;
  auto_fallback_to_full_download = true;
  force_download = false;
  force_download_threshold = 0;
}

abbrev flags : Flags
flags = record {
  open_for_reading = true;
  open_for_writing = false;
  direct_io = false;
  require_parallel_access = false;
  create_file_if_not_exists = false;
  overwrite_existing_file = false;
}

abbrev handle : FileHandle
handle = record {
  path = codes "http://h/f";
  http_params = params;
  flags = flags;
  client_cache = record { clients = []; generation = 0 };
  length = 6;
  last_modified = 0;
  etag = codes "\"v1\"";
  version_id = [];
  force_full_download = false;
  initialized = true;
  auto_fallback_to_full_file_download = true;
  write_overwrite_mode = false;
  cached_file_handle = none;
  buffer_available = 0;
  buffer_idx = 0;
  file_offset = 0;
  buffer_start = 0;
  buffer_end = 0;
  read_buffer = replicate 4 0;
  range_request_statistics = [];
}

lookup-insert_new :
    (name k v : Text) (m : List (Text × Text))
    → lookup name (insert_new k v m)
      ≡ or_else (lookup name m) (if text_eq k name then some v else none)
unfolding lookup
lookup-insert_new name k v [] = ground arith
lookup-insert_new name k v ((i, w) ∷ m) =
    let same = λ (e : text_eq i k ≡ true). ap (λ l. text_eq l name) (text_eq_sound i k e) in
    elim (Bool-cases (text_eq i k)) [
      | inl e ↦ rw e (ground (arith, same e, or_else-none (lookup name m)))
      | inr e ↦ rw e (ground (arith, lookup-insert_new name k v m))
    ]

util-IsHeaderMap : IsHeaderMap lookup util
util-IsHeaderMap = record {
  insert-same = λ k v m. ground (arith, lookup-insert_new k k v m, text_eq_iff k k);
  insert-since = λ v m.
      unfold text_eq in
      lookup-insert_new if_match if_unmodified_since v m ∙ or_else-none (lookup if_match m);
  insert-match = λ v m.
      unfold text_eq in
      lookup-insert_new if_unmodified_since if_match v m
      ∙ or_else-none (lookup if_unmodified_since m);
}

add_consistency_preconditions-validators_example :
    let out = (add_consistency_preconditions util handle []).0 in
    (lookup if_match out ≡ some (codes "\"v1\"")) × (lookup if_unmodified_since out ≡ none)
unfolding is_strong_etag lookup
add_consistency_preconditions-validators_example =
    add_consistency_preconditions-validators lookup util util-IsHeaderMap handle []
