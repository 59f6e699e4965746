-- ===== src/Threats/Osv/Order.antt =====
-- The workers of `hydrate` append their advisories in any order; the hits do not depend on it.
use mathlib.Core.Path.{fun_ext}
use mathlib.Core.List.{Permᴰ}
use hen_kai_pan.Prelude.{
  Bool, true, false, List, [], ◌∷◌, concat, Option, none, some, if◌then◌else◌, ◌≡◌, refl, ◌∙◌, sym,
  ap, arith,
}
use hen_kai_pan.Strings.{Text, text_eq_iff}
use hen_kai_pan.Maps.{Map, lookup, insert, lookup-insert, mem}
use hen_kai_pan.Threats.Records.{Dependency, Advisory, QueryHit}
use hen_kai_pan.Threats.Advisory.{OsvVuln, hydrate_one_id}
use hen_kai_pan.Threats.Osv.{
  Server, cons_fetched, fetch, hydrated, fetch_all, hydrate, index_advisories, dep_hits, join_hits,
  collect, query_batch_with_deps, query_chunks, query_batch_indexed, dedupe, ◌>>=◌, chunk_deps,
  queryable, osv_max_batch_size,
}

-- The server answers a request for an id with the record of that id.
abbrev pub IsFaithful : Server → Type 0
IsFaithful s = (id : Text) (v : OsvVuln) → s.get id ≡ some v → v.id ≡ id

hydrated-id :
    (id : Text) (a : Advisory) (o : Option OsvVuln)
    → ((v : OsvVuln) → o ≡ some v → v.id ≡ id)
    → hydrated o ≡ some a
    → a.advisory_id ≡ id
unfolding hydrated
hydrated-id id a none f h = cc
hydrated-id id a (some v) f h = cc (f v refl, hydrate_one_id v)

fetch-id :
    (s : Server)
    → IsFaithful s
    → (id : Text) (a : Advisory) → fetch s id ≡ some a
    → a.advisory_id ≡ id
unfolding fetch
fetch-id s f id a h = hydrated-id id a (s.get id) (f id) h

-- `first`, or `later` where there is none.
abbrev either : Option Advisory → Option Advisory → Option Advisory
either none later = later
either (some a) later = some a

abbrev when : Bool → Option Advisory → Option Advisory
when b o = if b then o else none

module _ (s : Server) (faithful : IsFaithful s) where
  fetched_step :
      (k id : Text) (o : Option Advisory) (ids : List Text) (out : Map Advisory)
      → fetch s id ≡ o
      → ((out' : Map Advisory)
          → lookup k (index_advisories out' (fetch_all s ids))
            ≡ either (when (mem k ids) (fetch s k)) (lookup k out'))
      → lookup k (index_advisories out (cons_fetched o (fetch_all s ids)))
        ≡ either (when (mem k (id ∷ ids)) (fetch s k)) (lookup k out)
  unfolding index_advisories cons_fetched mem
  fetched_step k id none ids out e ih = ground (arith, ih out, text_eq_iff id k)
  fetched_step k id (some a) ids out e ih = ground (
    arith,
    ih (insert a.advisory_id a out),
    lookup-insert a.advisory_id k a out,
    text_eq_iff id k,
    text_eq_iff a.advisory_id k,
    fetch-id s faithful id a e,
  )

  -- The index answers with the record of each id that was asked for.
  lookup-index :
      (k : Text) (ids : List Text) (out : Map Advisory)
      → lookup k (index_advisories out (fetch_all s ids))
        ≡ either (when (mem k ids) (fetch s k)) (lookup k out)
  unfolding fetch_all index_advisories mem
  lookup-index k [] out = refl
  lookup-index k (id ∷ ids) out =
      fetched_step k id (fetch s id) ids out refl (λ out'. lookup-index k ids out')

  known :
      (b : Bool) (o : Option Advisory) (a : Advisory) → either (when b o) none ≡ some a → o ≡ some a
  known true none a h = h
  known true (some x) a h = h
  known false o a h = cc

  -- What the index has for an id is what a worker made of it.
  pub index-fetch :
      (k : Text) (ids : List Text) (a : Advisory)
      → lookup k (index_advisories [] (hydrate s ids)) ≡ some a
      → fetch s k ≡ some a
  unfolding lookup hydrate
  index-fetch k ids a h =
      known (mem k (s.order ids)) (fetch s k) a (sym (lookup-index k (s.order ids) []) ∙ h)

mem-perm : (k : Text) {xs ys : List Text} → Permᴰ xs ys → mem k xs ≡ mem k ys
unfolding mem
mem-perm k Permᴰ.nil = refl
mem-perm k (Permᴰ.cons e p) = rw (e, mem-perm k p)
mem-perm k (Permᴰ.swap e f) = rw (e, f) (ground arith)
mem-perm k (Permᴰ.trans p q) = mem-perm k p ∙ mem-perm k q

module _ (m m' : Map Advisory) (same : (k : Text) → lookup k m ≡ lookup k m') where
  dep_hits-cong : (dep : Dependency) (ids : List Text) → dep_hits m dep ids ≡ dep_hits m' dep ids
  unfolding dep_hits
  dep_hits-cong dep [] = refl
  dep_hits-cong dep (id ∷ ids) = rw (same id, dep_hits-cong dep ids)

  join_hits-cong :
      (deps : List Dependency) (per_query : List (List Text))
      → join_hits m deps per_query ≡ join_hits m' deps per_query
  unfolding join_hits
  join_hits-cong [] per_query = refl
  join_hits-cong (dep ∷ deps) [] = refl
  join_hits-cong (dep ∷ deps) (ids ∷ per_query) =
      rw (dep_hits-cong dep ids, join_hits-cong deps per_query)

abbrev pub with_order : Server → (List Text → List Text) → Server
with_order s order = record s { order = order }

module _ (s : Server) (faithful : IsFaithful s) (o o' : List Text → List Text)
    (perm : (ids : List Text) → Permᴰ ids (o ids))
    (perm' : (ids : List Text) → Permᴰ ids (o' ids)) where
  collect-order :
      (deps : List Dependency) (per_query : List (List Text))
      → collect (with_order s o) deps per_query ≡ collect (with_order s o') deps per_query
  unfolding collect hydrate
  collect-order deps per_query =
      let ids = dedupe (concat per_query) in
      join_hits-cong _ _
        (λ k.
          lookup-index (with_order s o) faithful k (o ids) []
          ∙ ap (λ b. either (when b (fetch s k)) (lookup k []))
              (sym (mem-perm k (perm ids)) ∙ mem-perm k (perm' ids))
          ∙ sym (lookup-index (with_order s o') faithful k (o' ids) []))
        deps per_query

  query_chunks-order :
      (chunks : List (List Dependency))
      → query_chunks (with_order s o) chunks ≡ query_chunks (with_order s o') chunks
  unfolding query_chunks query_batch_indexed
  query_chunks-order [] = refl
  query_chunks-order (chunk ∷ chunks) = rw (query_chunks-order chunks)

-- The order in which the concurrent workers finish does not change the hits, if the server answers each
-- request with the record of the requested id.
pub query_batch_with_deps-order :
    (s : Server) (o o' : List Text → List Text) (deps : List Dependency)
    → IsFaithful s
    → ((ids : List Text) → Permᴰ ids (o ids))
    → ((ids : List Text) → Permᴰ ids (o' ids))
    → query_batch_with_deps (with_order s o) deps ≡ query_batch_with_deps (with_order s o') deps
unfolding query_batch_with_deps
query_batch_with_deps-order s o o' deps faithful perm perm' =
    rw (query_chunks-order s faithful o o' perm perm' _) (
      ap
        (λ (f : List (List Text) → Option (List QueryHit)).
          query_chunks (with_order s o') (chunk_deps (queryable deps) osv_max_batch_size) >>= f)
        (fun_ext (λ per_query.
          ap some (collect-order s faithful o o' perm perm' (queryable deps) per_query))))
