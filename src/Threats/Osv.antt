-- ===== src/Threats/Osv.antt =====
-- internal/threats/osv.go: the batched queries of the OSV client. The two calls of the server, decoded,
-- are the interface `Server`; the workers of `hydrate` finish in an order that it names too.
pub mod Chunks
pub mod Dedupe
pub mod Places
pub mod Align
pub mod Order
use hen_kai_pan.Prelude.{
  ℕ, zero, suc, ◌-◌, Bool, true, false, List, [], ◌∷◌, ◌++◌, ◌||◌, not, length, take, drop, concat,
  map, if◌then◌else◌, Option, none, some, ◌≡◌, refl,
}
use hen_kai_pan.Strings.{Text, is_empty, trim_space}
use hen_kai_pan.Maps.{Map, insert, lookup, mem}
use hen_kai_pan.Threats.Records.{Dependency, Advisory, QueryHit}
use hen_kai_pan.Threats.Advisory.{OsvVuln, hydrate_one}
use hen_kai_pan.Threats.Ecosystem.{osv_ecosystem}

-- `osvMaxBatchSize`
abbrev pub osv_max_batch_size : ℕ
osv_max_batch_size = 1000

pub record OsvQuery : Type 0 where
  pub name : Text
  pub ecosystem : Text
  pub version : Text

pub record Server : Type 0 where
  -- POST /v1/querybatch: the ids of each result, or an error.
  pub post : List OsvQuery → Option (List (List Text))
  -- GET /v1/vulns/{id}, or an error.
  pub get : Text → Option OsvVuln
  -- The order in which the workers append what they fetched.
  pub order : List Text → List Text

-- `for i := 0; i < len(deps); i += size`, one round for each unit of fuel.
chunk_from : ℕ → List Dependency → ℕ → List (List Dependency)
chunk_from zero deps size = []
chunk_from (suc fuel) [] size = []
chunk_from (suc fuel) (d ∷ ds) size = take size (d ∷ ds) ∷ chunk_from fuel (drop size (d ∷ ds)) size

unfoldable pub chunk_deps : List Dependency → ℕ → List (List Dependency)
unfolding chunk_from
chunk_deps deps size = chunk_from (length deps) deps size

dedupe_from : List Text → List Text → List Text
dedupe_from seen [] = []
dedupe_from seen (id ∷ ids) =
    let rest = dedupe_from seen ids in
    let added = id ∷ dedupe_from (id ∷ seen) ids in
    if is_empty id then rest else if mem id seen then rest else added

unfoldable pub dedupe : List Text → List Text
unfolding dedupe_from is_empty mem
dedupe ids = dedupe_from [] ids

-- One set of ids for each query: missing results are empty, and further ones are dropped.
pad : List Dependency → List (List Text) → List (List Text)
pad [] results = []
pad (d ∷ chunk) [] = [] ∷ pad chunk []
pad (d ∷ chunk) (r ∷ results) = r ∷ pad chunk results

pub osv_query : Dependency → OsvQuery
osv_query d = record { name = d.name; ecosystem = osv_ecosystem d.ecosystem; version = d.version }

pub is_queryable : Dependency → Bool
unfolding is_empty trim_space
is_queryable d =
    if is_empty (trim_space d.name) || is_empty (trim_space d.version)
    then false
    else not (is_empty (osv_ecosystem d.ecosystem))

pub queryable : List Dependency → List Dependency
queryable [] = []
queryable (d ∷ ds) = let rest = queryable ds in if is_queryable d then d ∷ rest else rest

pub index_advisories : Map Advisory → List Advisory → Map Advisory
index_advisories by_id [] = by_id
index_advisories by_id (a ∷ as') = index_advisories (insert a.advisory_id a by_id) as'

cons_hit : Dependency → Option Advisory → List QueryHit → List QueryHit
cons_hit dep none hits = hits
cons_hit dep (some a) hits = record { dependency = dep; advisory = a } ∷ hits

dep_hits : Map Advisory → Dependency → List Text → List QueryHit
dep_hits by_id dep [] = []
dep_hits by_id dep (id ∷ ids) = cons_hit dep (lookup id by_id) (dep_hits by_id dep ids)

-- `for i, dep := range queryable`, with `perQuery[i]`.
join_hits : Map Advisory → List Dependency → List (List Text) → List QueryHit
join_hits by_id [] per_query = []
join_hits by_id (dep ∷ deps) [] = []
join_hits by_id (dep ∷ deps) (ids ∷ per_query) =
    dep_hits by_id dep ids ++ join_hits by_id deps per_query

infixl 5 ◌>>=◌
abbrev ◌>>=◌ : {A B : Type 0} → Option A → (A → Option B) → Option B
none >>= f = none
some a >>= f = f a

bind-eq-some :
    {A B : Type 0} (m : Option A) (f : A → Option B) {b : B}
    → (m >>= f) ≡ some b
    → (a : A) × (m ≡ some a) × (f a ≡ some b)
bind-eq-some none f h = cc
bind-eq-some (some a) f h = (a, refl, h)

cons_fetched : Option Advisory → List Advisory → List Advisory
cons_fetched none rest = rest
cons_fetched (some a) rest = a ∷ rest

hydrated : Option OsvVuln → Option Advisory
hydrated none = none
hydrated (some v) = some (hydrate_one v)

-- What a worker makes of an id: the call and the conversion.
pub fetch : Server → Text → Option Advisory
unfolding hydrated hydrate_one
fetch server id = hydrated (server.get id)

module _ (server : Server) where
  query_batch_indexed : List Dependency → Option (List (List Text))
  query_batch_indexed chunk = do
    results ← server.post (map osv_query chunk)
    some (pad chunk results)

  pub query_chunks : List (List Dependency) → Option (List (List Text))
  query_chunks [] = some []
  query_chunks (chunk ∷ chunks) = do
    chunk_ids ← query_batch_indexed chunk
    rest ← query_chunks chunks
    some (chunk_ids ++ rest)

  fetch_all : List Text → List Advisory
  fetch_all [] = []
  fetch_all (id ∷ ids) = cons_fetched (fetch server id) (fetch_all ids)

  pub hydrate : List Text → List Advisory
  unfolding fetch_all cons_fetched fetch
  hydrate ids = fetch_all (server.order ids)

  -- What `QueryBatchWithDeps` does with the ids of each query.
  collect : List Dependency → List (List Text) → List QueryHit
  collect deps per_query =
      join_hits (index_advisories [] (hydrate (dedupe (concat per_query)))) deps per_query

  unfoldable pub query_batch_with_deps : List Dependency → Option (List QueryHit)
  unfolding query_chunks query_batch_indexed collect hydrate queryable osv_query pad join_hits
      dep_hits cons_hit index_advisories chunk_deps dedupe is_queryable insert lookup
  query_batch_with_deps deps = do
    per_query ← query_chunks (chunk_deps (queryable deps) osv_max_batch_size)
    some (collect (queryable deps) per_query)

-- The loop of `Query` over the hits; `dedupeQueryAdvisories` of internal/tasks is the same loop.
dedupe_hits_from : List Text → List QueryHit → List Advisory
dedupe_hits_from seen [] = []
dedupe_hits_from seen (h ∷ hs) =
    let rest = dedupe_hits_from seen hs in
    let added = h.advisory ∷ dedupe_hits_from (h.advisory.advisory_id ∷ seen) hs in
    if is_empty h.advisory.advisory_id
    then rest
    else if mem h.advisory.advisory_id seen
    then rest
    else added

unfoldable pub dedupe_query_advisories : List QueryHit → List Advisory
unfolding dedupe_hits_from is_empty mem
dedupe_query_advisories hits = dedupe_hits_from [] hits

unfoldable pub query : Server → List Dependency → Option (List Advisory)
unfolding query_batch_with_deps dedupe_query_advisories
query server deps = do hits ← query_batch_with_deps server deps; some (dedupe_query_advisories hits)
