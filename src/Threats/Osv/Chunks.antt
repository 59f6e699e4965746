-- ===== src/Threats/Osv/Chunks.antt =====
-- `chunkDeps` cuts its input into full chunks and loses nothing.
use hen_kai_pan.Prelude.{
  ℕ, zero, suc, ◌≤◌, ◌<◌, List, [], ◌∷◌, length, length-take, length-drop, drop, concat,
  take-append-drop, All, ◌≡◌, refl, arith,
}
use hen_kai_pan.Threats.Records.{Dependency}
use hen_kai_pan.Threats.Osv.{chunk_from, chunk_deps}

concat-chunk_from :
    (fuel : ℕ) (deps : List Dependency) (size : ℕ)
    → 0 < size
    → length deps ≤ fuel
    → concat (chunk_from fuel deps size) ≡ deps
unfolding chunk_from
concat-chunk_from zero [] size h k = refl
concat-chunk_from zero (d ∷ ds) size h k = absurd (omega arith)
concat-chunk_from (suc fuel) [] size h k = refl
concat-chunk_from (suc fuel) (d ∷ ds) size h k =
    rw
      (concat-chunk_from fuel (drop size (d ∷ ds)) size h
        (omega (arith, length-drop {0} size (d ∷ ds))))
      (take-append-drop size (d ∷ ds))

-- A chunk that the server accepts: not empty, and not above the limit.
pub record IsChunk (size : ℕ) (chunk : List Dependency) : Type 0 where
  pub nonempty : 0 < length chunk
  pub within : length chunk ≤ size

chunk_from-All :
    (fuel : ℕ) (deps : List Dependency) (size : ℕ)
    → 0 < size
    → All (IsChunk size) (chunk_from fuel deps size)
unfolding chunk_from
chunk_from-All zero deps size h = tt
chunk_from-All (suc fuel) [] size h = tt
chunk_from-All (suc fuel) (d ∷ ds) size h = (
  record {
    nonempty = omega (arith, length-take {0} size (d ∷ ds));
    within = omega (arith, length-take {0} size (d ∷ ds));
  },
  chunk_from-All fuel (drop size (d ∷ ds)) size h,
)

-- For a positive size the chunks hold all dependencies in order, and each has one to `size` of them.
pub chunk_deps_partition :
    (deps : List Dependency) (size : ℕ)
    → 0 < size
    → (concat (chunk_deps deps size) ≡ deps) × All (IsChunk size) (chunk_deps deps size)
unfolding chunk_deps
chunk_deps_partition deps size h = (
  concat-chunk_from (length deps) deps size h (omega arith),
  chunk_from-All (length deps) deps size h,
)
