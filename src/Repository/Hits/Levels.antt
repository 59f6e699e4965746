-- ===== src/Repository/Hits/Levels.antt =====
-- The stored runtime level of a row.
use hen_kai_pan.Prelude.{
  ℕ, ◌≤◌, Bool, true, false, List, [], ◌∷◌, some, ◌≡◌, ◌∙◌, inl, inr, refl, arith, if◌then◌else◌,
}
use hen_kai_pan.Strings.{Text, Text-cases, text_eq_refl, is_empty, trim_space}
use hen_kai_pan.Maps.{Map, lookup, lookup-insert}
use hen_kai_pan.Threats.Runtime.{
  Promotion, promoted, refused, promote_runtime, promote_runtime_sound, runtime_rank,
}
use hen_kai_pan.Repository.Hits.{
  ThreatHit, PriorRow, Reconciled, key_of, kept_runtime, final_runtime, settled_hit, row_of,
  next_rows, cons_fresh, reconcile_from, reconcile_hits,
}

-- The row of `k` is stored, at level `i` or above.
pub record IsAtLeast (i : ℕ) (k : Text) (m : Map PriorRow) : Type 0 where
  pub row : PriorRow
  pub level : ℕ
  pub found : lookup k m ≡ some row
  pub ranked : runtime_rank row.runtime ≡ some level
  pub above : i ≤ level

-- A refused promotion keeps the level, and one that succeeds does not lower it.
kept_runtime_level :
    (stored status : Text) (i : ℕ) (p : Promotion)
    → promote_runtime stored status ≡ p
    → runtime_rank stored ≡ some i
    → (j : ℕ) × (runtime_rank (kept_runtime stored p) ≡ some j) × (i ≤ j)
unfolding kept_runtime
kept_runtime_level stored status i (refused e) h k = (i, k, ground arith)
kept_runtime_level stored status i (promoted r) h k =
    let (a, b, ea, eb, le, er) = promote_runtime_sound stored status r h in
    (b, rw er eb, ground arith)

settled_level :
    (prev : PriorRow) (h : ThreatHit) (i : ℕ)
    → runtime_rank prev.runtime ≡ some i
    → (j : ℕ) × (runtime_rank (settled_hit (some prev) h).runtime_status ≡ some j) × (i ≤ j)
unfolding settled_hit final_runtime
settled_level prev h i k = kept_runtime_level prev.runtime _ i _ refl k

settled-IsAtLeast :
    (i : ℕ) (k : Text) (m : Map PriorRow) (h : ThreatHit)
    → IsAtLeast i k m
    → IsAtLeast i k (next_rows m h)
settled-IsAtLeast i k m h l = elim (Text-cases (key_of h) k) [
  | inl e ↦
      let f : lookup (key_of h) m ≡ some l.row = rw e l.found in
      let (j, ranked, le) = settled_level l.row h l.level l.ranked in
      record {
        row = row_of (settled_hit (lookup (key_of h) m) h);
        level = j;
        found = lookup-insert (key_of h) k _ m ∙ rw (e, text_eq_refl k) refl;
        ranked = rw f ranked;
        above = ground arith;
      }
  | inr n ↦ record {
    row = l.row;
    level = l.level;
    found = lookup-insert (key_of h) k _ m ∙ rw n l.found;
    ranked = l.ranked;
    above = l.above;
  }
]

stored_if :
    (P : Map PriorRow → Type 0) (b : Bool) (x y : Reconciled)
    → P x.stored
    → P y.stored
    → P (if b then x else y).stored
stored_if P true x y h k = h
stored_if P false x y h k = k

pub stored-cons_fresh :
    (P : Map PriorRow → Type 0) (b : Bool) (h : ThreatHit) (r : Reconciled)
    → P r.stored
    → P (cons_fresh b h r).stored
unfolding cons_fresh
stored-cons_fresh P true h r k = k
stored-cons_fresh P false h r k = k

module _ (writes : Map PriorRow → ThreatHit → Bool) where
  reconcile_from-IsAtLeast :
      (i : ℕ) (k : Text) (m : Map PriorRow) (hs : List ThreatHit)
      → IsAtLeast i k m
      → IsAtLeast i k (reconcile_from writes m hs).stored
  unfolding reconcile_from
  reconcile_from-IsAtLeast i k m [] l = l
  reconcile_from-IsAtLeast i k m (h ∷ hs) l =
      stored_if (IsAtLeast i k) (is_empty (trim_space h.advisory_id)) _ _
        (reconcile_from-IsAtLeast i k m hs l)
        (stored_if (IsAtLeast i k) (writes m (settled_hit (lookup (key_of h) m) h)) _ _
          (stored-cons_fresh (IsAtLeast i k) _ _ _
            (reconcile_from-IsAtLeast i k (next_rows m h) hs (settled-IsAtLeast i k m h l)))
          l)

  -- Whatever the hits, and whichever write fails, a stored row stays stored and its runtime level does not
  -- fall.
  pub reconcile_hits-IsAtLeast :
      (i : ℕ) (k : Text) (loads : Bool) (rows : Map PriorRow) (hits : List ThreatHit)
      → IsAtLeast i k rows
      → IsAtLeast i k (reconcile_hits writes loads rows hits).stored
  unfolding reconcile_hits
  reconcile_hits-IsAtLeast i k loads rows hits l =
      stored_if (IsAtLeast i k) loads _ _ (reconcile_from-IsAtLeast i k rows hits l) l
