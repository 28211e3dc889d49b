-- ===== src/Connections/Owned.antt =====
-- Who has a client: the cache, or the one it was given to.
use mathlib.Core.Path.{subst}
use native.Mathlib.Decide.{dec_lt}
use haybarn_httpfs.Base.{
  ℕ, zero, suc, ◌+◌, ◌%◌, ◌≤◌, ◌<◌, ◌≡◌, refl, sym, ap, ◌∙◌, ◌≢◌, inl, inr, Option, none, some,
  List, [], ◌∷◌, arith, ◌==◌, if◌then◌else◌, Bool-cases, Option-cases, length, set, get_or, Text,
  text_eq, text_eq_sound, is_empty,
}
use haybarn_httpfs.Connections.{
  pool_count, Client, Pool, ConnectionCache, pool_index, take_from_pool, put_in_pool, Locks,
  find_from, find_client, store_from, evict_from, store,
}

-- How often a client stands in a pool, and in the cache.
unfoldable pub times_in_pool : ℕ → Pool → ℕ
times_in_pool n [] = 0
times_in_pool n (none ∷ entries) = times_in_pool n entries
times_in_pool n (some entry ∷ entries) =
    (if entry.name == n then 1 else 0) + times_in_pool n entries

unfoldable pub times_held : ℕ → List Pool → ℕ
unfolding times_in_pool
times_held n [] = 0
times_held n (pool ∷ pools) = times_in_pool n pool + times_held n pools

abbrev pub is_client : ℕ → Client → ℕ
is_client n client = if client.name == n then 1 else 0

-- A pool that is replaced.
times_held-set :
    (n : ℕ) (pools : List Pool) (i : ℕ) (pool : Pool)
    → i < length pools
    → times_held n (set pools i pool) + times_in_pool n (get_or pools i [])
      ≡ times_held n pools + times_in_pool n pool
unfolding times_held
times_held-set n [] i pool h = absurd (omega arith)
times_held-set n (p ∷ pools) zero pool h = omega arith
times_held-set n (p ∷ pools) (suc i) pool h =
    omega (arith, times_held-set n pools i pool (omega arith))

times_held-set_le :
    (n : ℕ) (pools : List Pool) (i : ℕ) (pool : Pool)
    → times_held n (set pools i pool) + times_in_pool n (get_or pools i [])
      ≤ times_held n pools + times_in_pool n pool
unfolding times_held times_in_pool
times_held-set_le n [] i pool = omega arith
times_held-set_le n (p ∷ pools) zero pool = omega arith
times_held-set_le n (p ∷ pools) (suc i) pool = omega (arith, times_held-set_le n pools i pool)

times_in_pool-set :
    (n : ℕ) (pool : Pool) (slot : ℕ) (client : Client)
    → times_in_pool n (set pool slot (some client)) ≤ times_in_pool n pool + is_client n client
unfolding times_in_pool
times_in_pool-set n [] slot client = omega arith
times_in_pool-set n (none ∷ pool) zero client = omega arith
times_in_pool-set n (some entry ∷ pool) zero client = ground arith
times_in_pool-set n (none ∷ pool) (suc slot) client = times_in_pool-set n pool slot client
times_in_pool-set n (some entry ∷ pool) (suc slot) client =
    omega (arith, times_in_pool-set n pool slot client)

outside : (pools : List Pool) (i : ℕ) → length pools ≤ i → get_or pools i [] ≡ []
outside [] i h = refl
outside (p ∷ pools) zero h = absurd (omega arith)
outside (p ∷ pools) (suc i) h = outside pools i (omega arith)

take_from_pool-times :
    (n : ℕ) (base_url : Text) (pool rest : Pool) (client : Client)
    → take_from_pool base_url pool ≡ some (client, rest)
    → (times_in_pool n pool ≡ times_in_pool n rest + is_client n client)
      × (client.base_url ≡ base_url)
unfolding take_from_pool times_in_pool
take_from_pool-times n base_url [] rest client h = cc
take_from_pool-times n base_url (none ∷ entries) rest client h =
    elim (Option-cases (take_from_pool base_url entries)) [
      | inl e ↦ absurd (ground (arith, e, h))
      | inr ((found, left), e) ↦
          ground (arith, e, h, take_from_pool-times n base_url entries left found e)
    ]
take_from_pool-times n base_url (some entry ∷ entries) rest client h =
    elim (Bool-cases (text_eq entry.base_url base_url)) [
      | inl here ↦ ground (arith, here, h, text_eq_sound entry.base_url base_url here)
      | inr other ↦ elim (Option-cases (take_from_pool base_url entries)) [
        | inl e ↦ absurd (ground (arith, e, h, other))
        | inr ((found, left), e) ↦
            ground (arith, e, h, other, take_from_pool-times n base_url entries left found e)
      ]
    ]

put_in_pool-times :
    (n : ℕ) (client : Client) (pool rest : Pool)
    → put_in_pool client pool ≡ some rest
    → times_in_pool n rest ≡ times_in_pool n pool + is_client n client
unfolding put_in_pool times_in_pool
put_in_pool-times n client [] rest h = cc
put_in_pool-times n client (none ∷ entries) rest h = ground (arith, h)
put_in_pool-times n client (some entry ∷ entries) rest h =
    elim (Option-cases (put_in_pool client entries)) [
      | inl e ↦ absurd (ground (arith, e, h))
      | inr (left, e) ↦ ground (arith, e, h, put_in_pool-times n client entries left e)
    ]

-- How often a client was given to the caller.
abbrev pub times_given : ℕ → Option Client → ℕ
times_given n none = 0
times_given n (some client) = is_client n client

none-ne-some : {a : Client × Pool} → none ≢ some a
none-ne-some e = cc

some-injective : {a b : Client} → ◌≡◌ {A = Option Client} (some a) (some b) → a ≡ b
some-injective e = cc

-- What a thread finds at a pool that it tries.
abbrev tried : Text → Locks → ℕ → List Pool → Option (Client × Pool)
tried base_url free idx pools =
    if free idx then take_from_pool base_url (get_or pools idx []) else none

tried-take :
    (base_url : Text) (free : Locks) (idx : ℕ) (pools : List Pool) (client : Client) (pool : Pool)
    → tried base_url free idx pools ≡ some (client, pool)
    → (take_from_pool base_url (get_or pools idx []) ≡ some (client, pool)) × (idx < length pools)
unfolding take_from_pool
tried-take base_url free idx pools client pool h = elim (Bool-cases (free idx)) [
  | inr held ↦ absurd (ground (arith, held, h))
  | inl reached ↦
      let taken : take_from_pool base_url (get_or pools idx []) ≡ some (client, pool) =
        ground (arith, reached, h) in
      elim (dec_lt idx (length pools)) [
        | yes inside ↦ (taken, inside)
        | no beyond ↦ absurd (
            none-ne-some
              (ap (take_from_pool base_url) (sym (outside pools idx (omega arith))) ∙ taken))
      ]
]

module _ (n : ℕ) (base_url : Text) (free : Locks) (start : ℕ) (c : ConnectionCache) where
  find_from-given :
      (left i : ℕ)
      → times_held n c.pools
        ≡ times_held n (find_from base_url free start left i c).1.pools
          + times_given n (find_from base_url free start left i c).0
  unfolding find_from
  find_from-given zero i = omega arith
  find_from-given (suc left) i =
      elim (Option-cases (tried base_url free (pool_index start i) c.pools)) [
        | inl e ↦ rw (e, find_from) (find_from-given left (i + 1))
        | inr ((client, pool), e) ↦
            let (taken, inside) =
              tried-take base_url free (pool_index start i) c.pools client pool e in
            let (times, _) =
              take_from_pool-times n base_url (get_or c.pools (pool_index start i) []) pool client
                taken in
            let replaced = times_held-set n c.pools (pool_index start i) pool inside in
            rw (e, find_from) (omega (arith, times, replaced))
      ]

  unreached :
      (left i : ℕ)
      → tried base_url free (pool_index start i) c.pools ≡ none
      → find_from base_url free start (suc left) i c ≡ find_from base_url free start left (i + 1) c
  unfolding find_from
  unreached left i e = rw (e, find_from) refl

  find_from-base_url :
      (left i : ℕ) (client : Client)
      → (find_from base_url free start left i c).0 ≡ some client
      → client.base_url ≡ base_url
  unfolding find_from
  find_from-base_url zero i client h = cc
  find_from-base_url (suc left) i client h =
      elim (Option-cases (tried base_url free (pool_index start i) c.pools)) [
        | inl e ↦
            find_from-base_url left (i + 1) client (sym (ap (λ o. o.0) (unreached left i e)) ∙ h)
        | inr ((found, pool), e) ↦
            let (taken, _) = tried-take base_url free (pool_index start i) c.pools found pool e in
            let (_, url) =
              take_from_pool-times n base_url (get_or c.pools (pool_index start i) []) pool found
                taken in
            let same : found ≡ client = some-injective (rw (e, find_from) at h) in
            ap (λ k. k.base_url) (sym same) ∙ url
      ]

-- Find moves a client from the cache to the caller, and no other: for every name, the times that it
-- stands in the cache before are those after and those that it was given. Locks that are held do not
-- change this.
pub find_client-given :
    (n : ℕ) (base_url : Text) (free : Locks) (c : ConnectionCache)
    → times_held n c.pools
      ≡ times_held n (find_client base_url free c).1.pools
        + times_given n (find_client base_url free c).0
unfolding find_client
find_client-given n [] free c = omega arith
find_client-given n (b ∷ base_url) free c =
    find_from-given n (b ∷ base_url) free c.cache_pool_idx c pool_count 0

-- A client that Find gives is one for the URL that was asked for.
pub find_client-base_url :
    (base_url : Text) (free : Locks) (c : ConnectionCache) (client : Client)
    → (find_client base_url free c).0 ≡ some client
    → client.base_url ≡ base_url
unfolding find_client
find_client-base_url [] free c client h = cc
find_client-base_url (b ∷ base_url) free c client h =
    find_from-base_url 0 (b ∷ base_url) free c.cache_pool_idx c pool_count 0 client h

-- Whether a pool takes the client.
abbrev offered : Client → Locks → ℕ → List Pool → Option Pool
offered client free idx pools = if free idx then put_in_pool client (get_or pools idx []) else none

module _ (n : ℕ) (client : Client) (free : Locks) (start : ℕ) (c : ConnectionCache) where
  store_from-held :
      (left i : ℕ) (c' : ConnectionCache)
      → store_from client free start left i c ≡ some c'
      → times_held n c'.pools ≤ times_held n c.pools + is_client n client
  unfolding store_from
  store_from-held zero i c' h = cc
  store_from-held (suc left) i c' h =
      elim (Option-cases (offered client free (pool_index start i) c.pools)) [
        | inl e ↦ store_from-held left (i + 1) c' (rw (e, store_from) at h)
        | inr (pool, e) ↦
            let put : put_in_pool client (get_or c.pools (pool_index start i) []) ≡ some pool =
              ground (arith, e) in
            let times =
              put_in_pool-times n client (get_or c.pools (pool_index start i) []) pool put in
            let replaced = times_held-set_le n c.pools (pool_index start i) pool in
            let same : set c.pools (pool_index start i) pool ≡ c'.pools = ground (arith, h, e) in
            subst (λ p. times_held n p ≤ times_held n c.pools + is_client n client) same
              (omega (arith, times, replaced))
      ]

  evict_from-held :
      (random left i : ℕ)
      → times_held n (evict_from client free random start left i c).pools
        ≤ times_held n c.pools + is_client n client
  unfolding evict_from
  evict_from-held random zero i = omega arith
  evict_from-held random (suc left) i = elim (Bool-cases (free (pool_index start i))) [
    | inr e ↦ rw (e, evict_from) (evict_from-held random left (i + 1))
    | inl e ↦
        let pool = get_or c.pools (pool_index start i) [] in
        let times = times_in_pool-set n pool (random % length pool) client in
        let replaced =
          times_held-set_le n c.pools (pool_index start i)
            (set pool (random % length pool) (some client)) in
        rw (e, evict_from) (omega (arith, times, replaced))
  ]

-- Store adds its client at most once and adds no other, whichever pools are locked in its two passes
-- and whichever slot it evicts.
pub store-held :
    (n : ℕ) (client : Client) (free free_later : Locks) (random : ℕ) (c : ConnectionCache)
    → times_held n (store client free free_later random c).pools
      ≤ times_held n c.pools + is_client n client
unfolding store
store-held n client free free_later random c = elim (Bool-cases (is_empty client.base_url)) [
  | inl e ↦ rw (e, store) (omega arith)
  | inr e ↦ elim (Option-cases (store_from client free c.cache_pool_idx pool_count 0 c)) [
    | inl f ↦
        rw (e, f, store)
          (evict_from-held n client free_later c.cache_pool_idx c random pool_count 0)
    | inr (c', f) ↦
        rw (e, f, store) (store_from-held n client free c.cache_pool_idx c pool_count 0 c' f)
  ]
]
