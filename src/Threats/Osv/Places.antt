-- ===== src/Threats/Osv/Places.antt =====
-- The answers of the server stand at the places of the queries, through the batches and the padding.
use mathlib.Core.Path.{subst}
use hen_kai_pan.Prelude.{
  ◌++◌, ◌⊎◌, suc, List, [], ◌∷◌, length, length-append, concat, map, some, In, ◌≡◌, inl, inr, refl,
  sym, ◌∙◌, ap, arith,
}
use hen_kai_pan.Strings.{Text}
use hen_kai_pan.Threats.Records.{Dependency}
use hen_kai_pan.Threats.Osv.{
  Server, pad, osv_query, query_batch_indexed, query_chunks, queryable, osv_max_batch_size,
  chunk_deps, bind-eq-some,
}
use hen_kai_pan.Threats.Osv.Chunks.{chunk_deps_partition}

pub some_inj : {A : Type 0} (a b : A) → some a ≡ some b → a ≡ b
some_inj a b h = cc

length-pad :
    (chunk : List Dependency) (rs : List (List Text)) → length (pad chunk rs) ≡ length chunk
unfolding pad
length-pad [] rs = refl
length-pad (d ∷ chunk) [] = ap suc (length-pad chunk [])
length-pad (d ∷ chunk) (r ∷ rs) = ap suc (length-pad chunk rs)

-- However many results the server sends, each chunk gets one set of ids for each of its queries.
length-query_batch_indexed :
    (server : Server) (chunk : List Dependency) (ids : List (List Text))
    → query_batch_indexed server chunk ≡ some ids
    → length ids ≡ length chunk
unfolding query_batch_indexed
length-query_batch_indexed server chunk ids h =
    let (rs, posted, same) = bind-eq-some (server.post (map osv_query chunk)) _ h in
    rw (← some_inj _ _ same) (length-pad chunk rs)

length-query_chunks :
    (server : Server) (chunks : List (List Dependency)) (ids : List (List Text))
    → query_chunks server chunks ≡ some ids
    → length ids ≡ length (concat chunks)
unfolding query_chunks
length-query_chunks server [] ids h = rw (← some_inj _ _ h)
length-query_chunks server (chunk ∷ chunks) ids h =
    let (first, asked, more) = bind-eq-some (query_batch_indexed server chunk) _ h in
    let (rest, others, same) = bind-eq-some (query_chunks server chunks) _ more in
    rw (← some_inj _ _ same) (
      omega (
        arith,
        length-append {0} first rest,
        length-append {0} chunk (concat chunks),
        length-query_batch_indexed server chunk first asked,
        length-query_chunks server chunks rest others,
      ))

-- The ids of the queries line up with the queryable dependencies, so that `perQuery[i]` never fails.
query_chunks-aligned :
    (server : Server) (deps : List Dependency) (ids : List (List Text))
    → query_chunks server (chunk_deps (queryable deps) osv_max_batch_size) ≡ some ids
    → length ids ≡ length (queryable deps)
query_chunks-aligned server deps ids h =
    length-query_chunks server _ ids h
    ∙ ap length (chunk_deps_partition (queryable deps) osv_max_batch_size (omega arith)).0

-- `r` stands in `rs` where `d` stands in `ds`.
abbrev pub At : Dependency → List Text → List Dependency → List (List Text) → Type 0
At d r [] rs = ⊥
At d r (x ∷ ds) [] = ⊥
At d r (x ∷ ds) (y ∷ rs) = ((d ≡ x) × (r ≡ y)) ⊎ At d r ds rs

-- A place of two lists put together is a place of one of the parts.
At-append-cases :
    (d : Dependency) (r : List Text) (xs ys : List Dependency) (rs qs : List (List Text))
    → length rs ≡ length xs
    → At d r (xs ++ ys) (rs ++ qs)
    → At d r xs rs ⊎ At d r ys qs
At-append-cases d r [] ys [] qs e a = inr a
At-append-cases d r [] ys (q ∷ rs) qs e a = ground arith
At-append-cases d r (x ∷ xs) ys [] qs e a = ground arith
At-append-cases d r (x ∷ xs) ys (q ∷ rs) qs e (inl p) = inl (inl p)
At-append-cases d r (x ∷ xs) ys (q ∷ rs) qs e (inr a) =
    elim (At-append-cases d r xs ys rs qs (omega (arith, e)) a) [
      | inl l ↦ inl (inr l)
      | inr k ↦ inr k
    ]

no_place : (d : Dependency) (r : List Text) (ds : List Dependency) → At d r ds [] → ⊥
no_place d r [] a = a
no_place d r (x ∷ ds) a = a

-- An id of a padded place is an id of the same place of what the server sent.
At-pad :
    (d : Dependency) (r : List Text) (id : Text) (chunk : List Dependency) (rs : List (List Text))
    → At d r chunk (pad chunk rs)
    → In id r
    → At d r chunk rs
unfolding pad
At-pad d r id [] rs a m = elim a [ ]
At-pad d r id (x ∷ chunk) [] (inl (p, q)) m = elim (rw q at m) [ ]
At-pad d r id (x ∷ chunk) [] (inr a) m = absurd (no_place d r chunk (At-pad d r id chunk [] a m))
At-pad d r id (x ∷ chunk) (y ∷ rs) (inl p) m = inl p
At-pad d r id (x ∷ chunk) (y ∷ rs) (inr a) m = inr (At-pad d r id chunk rs a m)

-- The server answered a batch that holds the dependency, and `ids` stand at its place in the answer.
pub record IsAnswered (server : Server) (chunks : List (List Dependency)) (d : Dependency)
    (ids : List Text) : Type 0 where
  pub chunk : List Dependency
  pub results : List (List Text)
  pub listed : In chunk chunks
  pub posted : server.post (map osv_query chunk) ≡ some results
  pub own : At d ids chunk results

IsAnswered-cons :
    (server : Server) (chunk : List Dependency) (chunks : List (List Dependency)) (d : Dependency)
    (ids : List Text)
    → IsAnswered server chunks d ids
    → IsAnswered server (chunk ∷ chunks) d ids
IsAnswered-cons server chunk chunks d ids a = record {
  chunk = a.chunk;
  results = a.results;
  listed = inr a.listed;
  posted = a.posted;
  own = a.own;
}

pub query_chunks_sound :
    (server : Server) (chunks : List (List Dependency)) (per_query : List (List Text))
    (d : Dependency) (ids : List Text) (id : Text)
    → query_chunks server chunks ≡ some per_query
    → At d ids (concat chunks) per_query
    → In id ids
    → IsAnswered server chunks d ids
unfolding query_chunks query_batch_indexed
query_chunks_sound server [] per_query d ids id h a m = elim a [ ]
query_chunks_sound server (chunk ∷ chunks) per_query d ids id h a m =
    let (first, asked, more) = bind-eq-some (query_batch_indexed server chunk) _ h in
    let (rest, others, same) = bind-eq-some (query_chunks server chunks) _ more in
    let (rs, posted, padded) = bind-eq-some (server.post (map osv_query chunk)) _ asked in
    elim (At-append-cases d ids chunk (concat chunks) first rest
      (length-query_batch_indexed server chunk first asked)
      (subst (At d ids (chunk ++ concat chunks)) (sym (some_inj _ _ same)) a)) [
        | inl l ↦ record {
          chunk = chunk;
          results = rs;
          listed = inl refl;
          posted = posted;
          own = At-pad d ids id chunk rs (subst (At d ids chunk) (sym (some_inj _ _ padded)) l) m;
        }
        | inr r ↦
            IsAnswered-cons server chunk chunks d ids
              (query_chunks_sound server chunks rest d ids id others r m)
      ]

pub At-left :
    (d : Dependency) (r : List Text) (ds : List Dependency) (rs : List (List Text))
    → At d r ds rs
    → In d ds
At-left d r [] rs a = elim a [ ]
At-left d r (x ∷ ds) [] a = elim a [ ]
At-left d r (x ∷ ds) (y ∷ rs) (inl (p, q)) = inl p
At-left d r (x ∷ ds) (y ∷ rs) (inr a) = inr (At-left d r ds rs a)
