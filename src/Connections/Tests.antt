-- ===== src/Connections/Tests.antt =====
-- A cache with one idle client.
use haybarn_httpfs.Base.{◌+◌, ◌≡◌, not, none, some, [], ◌∷◌, ◌==◌, replicate, codes}
use haybarn_httpfs.Connections.{pool_size, Client, ConnectionCache, Locks, find_client}
use haybarn_httpfs.Connections.Owned.{times_held, times_given, find_client-given}

abbrev idle : Client
idle = record { name = 7; base_url = codes "https://h" }

abbrev cache : ConnectionCache
cache = record {
  pools = (none ∷ some idle ∷ []) ∷ replicate 15 (replicate pool_size none);
  cache_pool_idx = 15;
}

-- The lock of one pool is held.
abbrev free : Locks
free idx = not (idx == 3)

find_client-given_example :
    times_held 7 cache.pools
    ≡ times_held 7 (find_client (codes "https://h") free cache).1.pools
      + times_given 7 (find_client (codes "https://h") free cache).0
find_client-given_example = find_client-given 7 (codes "https://h") free cache
