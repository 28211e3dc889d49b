-- ===== src/Http/ClientCache/Staleness.antt =====
-- Generations of the client cache: which checked-out clients are taken back.
use haybarn_httpfs.Base.{
  ℕ, suc, ◌+◌, ◌%◌, ◌<◌, ◌≡◌, true, false, some, List, [], ◌∷◌, arith, ◌==◌, if◌then◌else◌,
}
use haybarn_httpfs.Http.Types.{word}
use haybarn_httpfs.Http.ClientCache.{
  ClientCache, store_entry, Op, checkout, clearing, storing, step, run,
}

-- How often a sequence of operations clears the cache.
abbrev pub clears : List Op → ℕ
clears [] = 0
clears (checkout ∷ ops) = clears ops
clears (clearing ∷ ops) = suc (clears ops)
clears (storing e ∷ ops) = clears ops

step-generation :
    (op : Op) (c : ClientCache)
    → c.generation < word
    → (step op c).generation ≡ (c.generation + clears (op ∷ [])) % word
unfolding step
step-generation checkout c h = ground arith
step-generation clearing c h = ground arith
step-generation (storing e) c h = ground arith

clears-cons : (op : Op) (ops : List Op) → clears (op ∷ ops) ≡ clears (op ∷ []) + clears ops
clears-cons checkout ops = omega arith
clears-cons clearing ops = omega arith
clears-cons (storing e) ops = omega arith

run-generation :
    (ops : List Op) (c : ClientCache)
    → c.generation < word
    → (run ops c).generation ≡ (c.generation + clears ops) % word
unfolding run
run-generation [] c h = omega arith
run-generation (op ∷ ops) c h = omega (
  arith,
  step-generation op c h,
  run-generation ops (step op c) (omega (arith, step-generation op c h)),
  clears-cons op ops,
)

-- A client that was checked out at the cache's generation is taken back after any operations of
-- other threads exactly when these did not clear the cache, as long as they cleared it fewer than
-- 2^64 times; when it is refused, the cache is left as it was.
pub run-store_entry :
    (ops : List Op) (c : ClientCache) (client : ℕ)
    → c.generation < word
    → clears ops < word
    → store_entry (record { client = some client; generation = c.generation }) (run ops c) ≡ (
        if clears ops == 0
        then (true, record (run ops c) { clients = client ∷ (run ops c).clients })
        else (false, run ops c))
unfolding store_entry
run-store_entry ops c client h k = ground (arith, run-generation ops c h)
