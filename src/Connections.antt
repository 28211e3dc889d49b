-- ===== src/Connections.antt =====
-- HTTPClientConnectionCache (httpfs_connection_caching.cpp, include/httpfs_client.hpp): the idle clients
-- of the process, in pools that are each under a lock. A pool whose lock is held by another thread is
-- skipped.
mod Owned
mod Tests
use haybarn_httpfs.Base.{
  ℕ, zero, suc, ◌+◌, ◌%◌, Bool, Option, none, some, List, [], ◌∷◌, if◌then◌else◌, length, set,
  get_or, Text, text_eq, is_empty,
}

abbrev pub pool_count : ℕ
pool_count = 16

abbrev pub pool_size : ℕ
pool_size = 16

-- An HTTPClient, by a number that names it.
pub record Client : Type 0 where
  pub name : ℕ
  pub base_url : Text

abbrev pub Pool : Type 0
Pool = List (Option Client)

-- `cache_pool_idx` is that of the calling thread.
pub record ConnectionCache : Type 0 where
  pub pools : List Pool
  pub cache_pool_idx : ℕ

-- The pool that a thread looks at after `i` others.
abbrev pub pool_index : ℕ → ℕ → ℕ
pool_index start i = (start + i) % pool_count

-- The first client for a URL in a pool, taken out of it.
unfoldable pub take_from_pool : Text → Pool → Option (Client × Pool)
unfolding text_eq
take_from_pool base_url [] = none
take_from_pool base_url (none ∷ entries) = elim (take_from_pool base_url entries) [
  | none ↦ none
  | some (client, rest) ↦ some (client, none ∷ rest)
]
take_from_pool base_url (some entry ∷ entries) =
    let later = take_from_pool base_url entries in
    if text_eq entry.base_url base_url
    then some (entry, none ∷ entries)
    else elim later [ none ↦ none | some (client, rest) ↦ some (client, some entry ∷ rest) ]

-- The client in the first empty slot of a pool.
unfoldable pub put_in_pool : Client → Pool → Option Pool
put_in_pool client [] = none
put_in_pool client (none ∷ entries) = some (some client ∷ entries)
put_in_pool client (some entry ∷ entries) = elim (put_in_pool client entries) [
  | none ↦ none
  | some rest ↦ some (some entry ∷ rest)
]

-- `free` says which locks are free when this call tries them.
abbrev pub Locks : Type 0
Locks = ℕ → Bool

-- The loop of Find: `left` pools are not looked at yet, from the `i`-th on.
unfoldable pub find_from :
    Text → Locks → ℕ → ℕ → ℕ → ConnectionCache → Option Client × ConnectionCache
unfolding take_from_pool
find_from base_url free start zero i c = (none, c)
find_from base_url free start (suc left) i c =
    let idx = pool_index start i in
    let later = find_from base_url free start left (i + 1) c in
    elim (if free idx then take_from_pool base_url (get_or c.pools idx []) else none) [
      | none ↦ later
      | some (client, pool) ↦
          (some client, record { pools = set c.pools idx pool; cache_pool_idx = idx })
    ]

-- Find.
unfoldable pub find_client : Text → Locks → ConnectionCache → Option Client × ConnectionCache
unfolding find_from
find_client base_url free c =
    if is_empty base_url then (none, c) else find_from base_url free c.cache_pool_idx pool_count 0 c

-- The first pass of Store: none when no reachable pool has an empty slot.
unfoldable pub store_from : Client → Locks → ℕ → ℕ → ℕ → ConnectionCache → Option ConnectionCache
unfolding put_in_pool
store_from client free start zero i c = none
store_from client free start (suc left) i c =
    let idx = pool_index start i in
    let later = store_from client free start left (i + 1) c in
    elim (if free idx then put_in_pool client (get_or c.pools idx []) else none) [
      | none ↦ later
      | some pool ↦ some (record { pools = set c.pools idx pool; cache_pool_idx = idx })
    ]

-- The second pass: a random slot of the first reachable pool.
unfoldable pub evict_from : Client → Locks → ℕ → ℕ → ℕ → ℕ → ConnectionCache → ConnectionCache
evict_from client free random start zero i c = c
evict_from client free random start (suc left) i c =
    let idx = pool_index start i in
    let later = evict_from client free random start left (i + 1) c in
    let pool = get_or c.pools idx [] in
    if free idx
    then record {
      pools = set c.pools idx (set pool (random % length pool) (some client));
      cache_pool_idx = idx;
    }
    else later

-- Store; the locks can change between the passes, and `random` is what the RandomEngine gives.
unfoldable pub store : Client → Locks → Locks → ℕ → ConnectionCache → ConnectionCache
unfolding store_from evict_from
store client free free_later random c =
    if is_empty client.base_url
    then c
    else elim (store_from client free c.cache_pool_idx pool_count 0 c) [
      | some c' ↦ c'
      | none ↦ evict_from client free_later random c.cache_pool_idx pool_count 0 c
    ]

unfoldable pub reset_entries : Pool → Pool
reset_entries [] = []
reset_entries (entry ∷ entries) = none ∷ reset_entries entries

unfoldable pub reset_pools : List Pool → List Pool
unfolding reset_entries
reset_pools [] = []
reset_pools (pool ∷ pools) = reset_entries pool ∷ reset_pools pools

-- Clear.
unfoldable pub clear_connections : ConnectionCache → ConnectionCache
unfolding reset_pools
clear_connections c = record c { pools = reset_pools c.pools }
