-- ===== src/Threats/Runtime.antt =====
-- internal/threats/track2.go: runtime assessment levels. A status is any string in the source.
use hen_kai_pan.Prelude.{ℕ, Option, none, some, if◌then◌else◌, ltb, ◌≡◌, ◌≤◌, ◌<◌, ◌↔◌, refl, arith}
use hen_kai_pan.Strings.{Text, lit, text_eq}

pub data PromoteError : Type 0 where
  invalid_source invalid_target downgrade_forbidden : PromoteError

pub data Promotion : Type 0 where
  promoted : Text → Promotion
  refused : PromoteError → Promotion

-- `none` is Go's `(-1, false)`.
unfoldable pub runtime_rank : Text → Option ℕ
runtime_rank s =
    if text_eq s (lit "L0")
    then some 0
    else if text_eq s (lit "L1")
    then some 1
    else if text_eq s (lit "L2")
    then some 2
    else if text_eq s (lit "L3")
    then some 3
    else if text_eq s (lit "L4")
    then some 4
    else none

compare_ranks : Text → Option ℕ → Option ℕ → Promotion
compare_ranks to none to_rank = refused invalid_source
compare_ranks to (some from_rank) none = refused invalid_target
compare_ranks to (some from_rank) (some to_rank) =
    if ltb to_rank from_rank then refused downgrade_forbidden else promoted to

unfoldable pub promote_runtime : Text → Text → Promotion
unfolding compare_ranks runtime_rank
promote_runtime from to = compare_ranks to (runtime_rank from) (runtime_rank to)

compare_ranks_sound :
    (to r : Text) (a b : Option ℕ)
    → compare_ranks to a b ≡ promoted r
    → (i : ℕ) × (j : ℕ) × (a ≡ some i) × (b ≡ some j) × (i ≤ j) × (r ≡ to)
unfolding compare_ranks
compare_ranks_sound to r none b h = cc
compare_ranks_sound to r (some i) none h = cc
compare_ranks_sound to r (some i) (some j) h = (i, j, refl, refl, ground arith, ground arith)

-- A promotion succeeds only onto its target, between known levels, and never downwards.
pub promote_runtime_sound :
    (from to r : Text)
    → promote_runtime from to ≡ promoted r
    → (i : ℕ) × (j : ℕ) × (runtime_rank from ≡ some i)
      × (runtime_rank to ≡ some j)
      × (i ≤ j)
      × (r ≡ to)
unfolding promote_runtime
promote_runtime_sound from to r h = compare_ranks_sound to r (runtime_rank from) (runtime_rank to) h

-- A promotion between known levels is refused exactly where it would go down.
pub promote_runtime_downgrade_iff :
    (from to : Text) (i j : ℕ)
    → runtime_rank from ≡ some i
    → runtime_rank to ≡ some j
    → (promote_runtime from to ≡ refused downgrade_forbidden) ↔ (j < i)
unfolding promote_runtime compare_ranks
promote_runtime_downgrade_iff from to i j h k = ground arith
