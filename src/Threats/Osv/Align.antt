-- ===== src/Threats/Osv/Align.antt =====
-- The ids of each query stay with their dependency.
use mathlib.Core.Path.{subst}
use hen_kai_pan.Prelude.{
  true, List, [], ◌∷◌, concat, Option, none, some, In, In-append-cases, ◌≡◌, inl, inr, refl, sym,
  arith, Bool-cases,
}
use hen_kai_pan.Strings.{Text}
use hen_kai_pan.Maps.{Map, lookup}
use hen_kai_pan.Threats.Records.{Dependency, Advisory, QueryHit}
use hen_kai_pan.Threats.Osv.{
  Server, query_chunks, cons_hit, dep_hits, join_hits, is_queryable, queryable, collect,
  query_batch_with_deps, osv_max_batch_size, chunk_deps, bind-eq-some, hydrated, fetch, dedupe,
}
use hen_kai_pan.Threats.Advisory.{OsvVuln, hydrate_one}
use hen_kai_pan.Threats.Osv.Order.{IsFaithful, index-fetch}
use hen_kai_pan.Threats.Osv.Chunks.{chunk_deps_partition}
use hen_kai_pan.Threats.Osv.Places.{some_inj, At, At-left, IsAnswered, query_chunks_sound}

-- The hit pairs a dependency with an id of its own place, and with the record that the index has for it.
pub record IsPaired (by_id : Map Advisory) (deps : List Dependency) (per_query : List (List Text))
    (h : QueryHit) : Type 0 where
  pub ids : List Text
  pub id : Text
  pub own : At h.dependency ids deps per_query
  pub named : In id ids
  pub indexed : lookup id by_id ≡ some h.advisory

-- The two fields that the loop over the ids settles.
abbrev IsNamed : Map Advisory → Dependency → List Text → QueryHit → Type 0
IsNamed by_id dep ids h =
    (id : Text) × (h.dependency ≡ dep) × In id ids × (lookup id by_id ≡ some h.advisory)

cons_hit_sound :
    (by_id : Map Advisory) (dep : Dependency) (id : Text) (ids : List Text) (o : Option Advisory)
    (hits : List QueryHit) (h : QueryHit)
    → lookup id by_id ≡ o
    → (In h hits → IsNamed by_id dep ids h)
    → In h (cons_hit dep o hits)
    → IsNamed by_id dep (id ∷ ids) h
unfolding cons_hit
cons_hit_sound by_id dep id ids none hits h e rest m = let (x, d, l, k) = rest m in (x, d, inr l, k)
cons_hit_sound by_id dep id ids (some a) hits h e rest (inl p) = rw p (id, refl, inl refl, e)
cons_hit_sound by_id dep id ids (some a) hits h e rest (inr m) =
    let (x, d, l, k) = rest m in (x, d, inr l, k)

dep_hits_sound :
    (by_id : Map Advisory) (dep : Dependency) (ids : List Text) (h : QueryHit)
    → In h (dep_hits by_id dep ids)
    → IsNamed by_id dep ids h
unfolding dep_hits
dep_hits_sound by_id dep [] h m = elim m [ ]
dep_hits_sound by_id dep (id ∷ ids) h m =
    cons_hit_sound by_id dep id ids _ _ h refl (dep_hits_sound by_id dep ids h) m

IsPaired-cons :
    (by_id : Map Advisory) (dep : Dependency) (ids : List Text) (deps : List Dependency)
    (per_query : List (List Text)) (h : QueryHit)
    → IsPaired by_id deps per_query h
    → IsPaired by_id (dep ∷ deps) (ids ∷ per_query) h
IsPaired-cons by_id dep ids deps per_query h p = record {
  ids = p.ids;
  id = p.id;
  own = inr p.own;
  named = p.named;
  indexed = p.indexed;
}

join_hits_sound :
    (by_id : Map Advisory) (deps : List Dependency) (per_query : List (List Text)) (h : QueryHit)
    → In h (join_hits by_id deps per_query)
    → IsPaired by_id deps per_query h
unfolding join_hits
join_hits_sound by_id [] per_query h m = elim m [ ]
join_hits_sound by_id (dep ∷ deps) [] h m = elim m [ ]
join_hits_sound by_id (dep ∷ deps) (ids ∷ per_query) h m =
    elim (In-append-cases h (dep_hits by_id dep ids) _ m) [
      | inl l ↦
          let (x, d, k, e) = dep_hits_sound by_id dep ids h l in
          record { ids = ids; id = x; own = inl (d, refl); named = k; indexed = e }
      | inr r ↦
          IsPaired-cons by_id dep ids deps per_query h (join_hits_sound by_id deps per_query h r)
    ]

queryable_sound :
    (d : Dependency) (ds : List Dependency)
    → In d (queryable ds)
    → In d ds × (is_queryable d ≡ true)
unfolding queryable
queryable_sound d [] m = elim m [ ]
queryable_sound d (x ∷ ds) m = elim (Bool-cases (is_queryable x)) [
  | inl e ↦ elim (rw e at m) [
    | inl p ↦ (inl p, rw p e)
    | inr r ↦ let (l, q) = queryable_sound d ds r in (inr l, q)
  ]
  | inr e ↦ let (l, q) = queryable_sound d ds (rw e at m) in (inr l, q)
]

fetched_record :
    (o : Option OsvVuln) (a : Advisory)
    → hydrated o ≡ some a
    → (v : OsvVuln) × (o ≡ some v) × (a ≡ hydrate_one v)
unfolding hydrated
fetched_record none a h = cc
fetched_record (some v) a h = (v, refl, cc)

-- What the server answered on the hit's advisory: an id at the place of the hit's own dependency, and the
-- record of that id.
pub record IsBacked (server : Server) (deps : List Dependency) (h : QueryHit) : Type 0 where
  pub listed : In h.dependency deps
  pub can_be_queried : is_queryable h.dependency ≡ true
  pub ids : List Text
  pub answered : IsAnswered server (chunk_deps (queryable deps) osv_max_batch_size) h.dependency ids
  pub id : Text
  pub named : In id ids
  pub vuln : OsvVuln
  pub fetched : server.get id ≡ some vuln
  pub converted : h.advisory ≡ hydrate_one vuln

-- Every hit of `QueryBatchWithDeps` pairs a given dependency that can be queried with an advisory of its own:
-- the server answered a batch that holds the dependency, named an id at the place of its query, and gave the
-- record of that id, of which the advisory is the conversion. The server answers each request for a record
-- with that of the requested id.
pub query_batch_with_deps_sound :
    (server : Server) (deps : List Dependency) (hits : List QueryHit) (h : QueryHit)
    → IsFaithful server
    → query_batch_with_deps server deps ≡ some hits
    → In h hits
    → IsBacked server deps h
unfolding query_batch_with_deps collect fetch
query_batch_with_deps_sound server deps hits h faithful e m =
    let (per_query, asked, same) = bind-eq-some (query_chunks server _) _ e in
    let paired =
      join_hits_sound _ (queryable deps) per_query h
        (subst (λ hs. In h hs) (sym (some_inj _ _ same)) m) in
    let (listed, good) =
      queryable_sound h.dependency deps
        (At-left h.dependency paired.ids (queryable deps) per_query paired.own) in
    let whole = (chunk_deps_partition (queryable deps) osv_max_batch_size (omega arith)).0 in
    let (vuln, got, converted) = fetched_record (server.get paired.id) h.advisory (
      index-fetch server faithful paired.id (dedupe (concat per_query)) h.advisory
        paired.indexed) in
    record {
      listed = listed;
      can_be_queried = good;
      ids = paired.ids;
      answered =
          query_chunks_sound server _ per_query h.dependency paired.ids paired.id asked
            (subst (λ ds. At h.dependency paired.ids ds per_query) (sym whole) paired.own)
            paired.named;
      id = paired.id;
      named = paired.named;
      vuln = vuln;
      fetched = got;
      converted = converted;
    }
