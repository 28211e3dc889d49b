-- ===== src/Http/ClientCache/Tests.antt =====
-- Runs of the client cache.
use haybarn_httpfs.Base.{◌≡◌, refl, false, some, [], ◌∷◌, arith}
use haybarn_httpfs.Http.ClientCache.{
  ClientCache, get_client_with_generation, store_entry, checkout, clearing, run,
}
use haybarn_httpfs.Http.ClientCache.Staleness.{run-store_entry}

abbrev two_clients : ClientCache
two_clients = record { clients = 7 ∷ 8 ∷ []; generation = 3 }

checkout_newest : (get_client_with_generation two_clients).0.client ≡ some 7
unfolding get_client_with_generation
checkout_newest = refl

-- A clear between the checkout and the store: the client is refused.
run-store_entry_example :
    store_entry
      (record { client = some 9; generation = 3 })
      (run (clearing ∷ checkout ∷ []) two_clients)
    ≡ (false, run (clearing ∷ checkout ∷ []) two_clients)
run-store_entry_example =
    run-store_entry (clearing ∷ checkout ∷ []) two_clients 9 (omega arith) (omega arith)
