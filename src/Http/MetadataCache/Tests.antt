-- ===== src/Http/MetadataCache/Tests.antt =====
-- Runs of the metadata cache.
use haybarn_httpfs.Base.{◌≡◌, true, some, [], ◌∷◌, Text, codes, text_eq}
use haybarn_httpfs.Http.MetadataCache.{CacheEntry, MetadataCache, find}
use haybarn_httpfs.Http.MetadataCache.Refinement.{inserting, ending, run, find-run}

abbrev path : Text
path = codes "https://h/f"

abbrev known : CacheEntry
known = record {
  length = 10;
  last_modified = 4;
  etag = codes "e";
  version_id = [];
  properties = [];
}

abbrev fresh : MetadataCache
fresh = record { map = []; flush_on_query_end = true; shared = true }

find-run_example :
    find path (run (inserting path known ∷ ending ∷ inserting path known ∷ []) fresh) ≡ some known
unfolding text_eq
find-run_example = find-run (inserting path known ∷ ending ∷ inserting path known ∷ []) fresh path
