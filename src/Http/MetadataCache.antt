-- ===== src/Http/MetadataCache.antt =====
-- HTTPMetadataCache (include/http_metadata_cache.hpp): what a HEAD request told of a path. The
-- operations of a shared cache run under its lock and those of an unshared one do not, with the
-- same effect.
mod Refinement
mod Tests
use haybarn_httpfs.Base.{ℕ, Bool, Option, List, [], map, if◌then◌else◌, Text, lookup}
use haybarn_httpfs.Base

pub record CacheEntry : Type 0 where
  pub length : ℕ
  pub last_modified : ℕ
  pub etag : Text
  pub version_id : Text
  pub properties : List (Text × Text)

pub record MetadataCache : Type 0 where
  pub map : List (Text × CacheEntry)
  pub flush_on_query_end : Bool
  pub shared : Bool

unfoldable pub insert : Text → CacheEntry → MetadataCache → MetadataCache
insert path v c = record c { map = Base.insert path v c.map }

unfoldable pub erase : Text → MetadataCache → MetadataCache
erase path c = record c { map = Base.erase path c.map }

-- `none` when Find returns false.
unfoldable pub find : Text → MetadataCache → Option CacheEntry
find path c = lookup path c.map

unfoldable pub clear : MetadataCache → MetadataCache
clear c = record c { map = [] }

unfoldable pub query_end : MetadataCache → MetadataCache
unfolding clear
query_end c = if c.flush_on_query_end then clear c else c
