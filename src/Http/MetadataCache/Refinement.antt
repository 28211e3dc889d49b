-- ===== src/Http/MetadataCache/Refinement.antt =====
-- The metadata cache against a partial function from paths to entries.
use mathlib.Core.Path.{ap₂, fun_ext}
use haybarn_httpfs.Base.{
  ◌≡◌, refl, ◌∙◌, Bool, Option, none, some, List, [], ◌∷◌, arith, if◌then◌else◌, Text, text_eq,
  lookup, lookup-insert, lookup-erase,
}
use haybarn_httpfs.Http.MetadataCache.{CacheEntry, MetadataCache, find}
use haybarn_httpfs.Http.MetadataCache as Cache

-- The calls that change the cache.
pub data Op : Type 0 where
  inserting : Text → CacheEntry → Op
  erasing : Text → Op
  clearing ending : Op

pub step : Op → MetadataCache → MetadataCache
unfolding Cache.insert Cache.erase Cache.clear Cache.query_end
step (inserting p v) c = Cache.insert p v c
step (erasing p) c = Cache.erase p c
step clearing c = Cache.clear c
step ending c = Cache.query_end c

pub run : List Op → MetadataCache → MetadataCache
run [] c = c
run (op ∷ ops) c = run ops (step op c)

-- The abstract cache.
abbrev pub Known : Type 0
Known = Text → Option CacheEntry

abbrev pub spec : Bool → Op → Known → Known
spec flush (inserting p v) k q = if text_eq p q then some v else k q
spec flush (erasing p) k q = if text_eq p q then none else k q
spec flush clearing k q = none
spec flush ending k q = if flush then none else k q

abbrev pub specs : Bool → List Op → Known → Known
specs flush [] k = k
specs flush (op ∷ ops) k = specs flush ops (spec flush op k)

find-step :
    (op : Op) (c : MetadataCache) (q : Text)
    → find q (step op c) ≡ spec c.flush_on_query_end op (λ p. find p c) q
unfolding find step
find-step (inserting p v) c q = lookup-insert p q v c.map
find-step (erasing p) c q = lookup-erase p q c.map
find-step clearing c q = unfold lookup in refl
find-step ending c q = unfold lookup in ground arith

flush-step : (op : Op) (c : MetadataCache) → (step op c).flush_on_query_end ≡ c.flush_on_query_end
unfolding step
flush-step (inserting p v) c = refl
flush-step (erasing p) c = refl
flush-step clearing c = refl
flush-step ending c = ground arith

-- After any sequence of inserts, erasures, clears and query ends, what `find` answers for a path is
-- what the same sequence makes of the partial function that the cache stood for, the end of a query
-- emptying it exactly when the cache is flushed on query end.
pub find-run :
    (ops : List Op) (c : MetadataCache) (q : Text)
    → find q (run ops c) ≡ specs c.flush_on_query_end ops (λ p. find p c) q
unfolding run
find-run [] c q = refl
find-run (op ∷ ops) c q =
    find-run ops (step op c) q
    ∙ ap₂ (λ b k. specs b ops k q) (flush-step op c) (fun_ext (find-step op c))
