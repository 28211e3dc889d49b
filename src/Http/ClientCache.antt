-- ===== src/Http/ClientCache.antt =====
-- HTTPClientCache (include/httpfs.hpp, httpfs.cpp): the idle clients of one file handle. A client is
-- checked out with the generation of the cache, and is taken back only if the cache was not cleared
-- since. A client is a number that names it.
mod Staleness
mod Tests
use haybarn_httpfs.Base.{
  ℕ, ◌+◌, ◌%◌, Bool, true, false, Option, none, some, List, [], ◌∷◌, ◌==◌, if◌then◌else◌,
}
use haybarn_httpfs.Http.Types.{word}

-- The head of `clients` is the back of the vector.
pub record ClientCache : Type 0 where
  pub clients : List ℕ
  pub generation : ℕ

pub record Entry : Type 0 where
  pub client : Option ℕ
  pub generation : ℕ

unfoldable pub get_client_with_generation : ClientCache → Entry × ClientCache
get_client_with_generation c = elim c.clients [
  | [] ↦ (record { client = none; generation = c.generation }, c)
  | client ∷ rest ↦
      (record { client = some client; generation = c.generation }, record c { clients = rest })
]

unfoldable pub get_client : ClientCache → Option ℕ × ClientCache
unfolding get_client_with_generation
get_client c = let (entry, c') = get_client_with_generation c in (entry.client, c')

-- StoreClient of a client without a generation.
unfoldable pub store_client : ℕ → ClientCache → ClientCache
store_client client c = record c { clients = client ∷ c.clients }

-- StoreClient of an entry: whether the cache has dealt with the client.
pub store_entry : Entry → ClientCache → Bool × ClientCache
store_entry e c = elim e.client [
  | none ↦ (true, c)
  | some client ↦
      if e.generation == c.generation
      then (true, record c { clients = client ∷ c.clients })
      else (false, c)
]

unfoldable pub clear : ClientCache → ClientCache
clear c = record { clients = []; generation = (c.generation + 1) % word }

-- What other threads may do to the cache while a client is checked out.
pub data Op : Type 0 where
  checkout clearing : Op
  storing : Entry → Op

pub step : Op → ClientCache → ClientCache
unfolding get_client_with_generation store_entry clear
step checkout c = (get_client_with_generation c).1
step clearing c = clear c
step (storing e) c = (store_entry e c).1

pub run : List Op → ClientCache → ClientCache
run [] c = c
run (op ∷ ops) c = run ops (step op c)
