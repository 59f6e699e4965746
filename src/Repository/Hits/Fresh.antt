-- ===== src/Repository/Hits/Fresh.antt =====
-- The statuses of the hits that `ReconcileHits` reports.
use hen_kai_pan.Prelude.{
  Bool, true, false, List, [], ◌∷◌, Option, none, some, ◌≡◌, refl, if◌then◌else◌, All,
}
use mathlib.Core.Path.{subst}
use hen_kai_pan.Strings.{Text, is_empty, trim_space}
use hen_kai_pan.Maps.{Map, lookup}
use hen_kai_pan.Repository.Hits.{
  ThreatHit, PriorRow, Reconciled, key_of, settled_hit, next_rows, cons_fresh, cons_hit,
  reconcile_from, reconcile_hits,
}
use hen_kai_pan.Repository.Hits.Repeats.{inventory_of, match_of}

module _ (P : Text → Text → Type 0) where
  abbrev IsReported : ThreatHit → Type 0
  IsReported h = P h.inventory_status h.match_status

  -- Every hit that is reported satisfies `P`.
  abbrev Reports : Reconciled → Type 0
  Reports r = (fs : List ThreatHit) → r.fresh ≡ some fs → All IsReported fs

  cons_hit-Reports :
      (h : ThreatHit) (o : Option (List ThreatHit))
      → IsReported h
      → ((fs : List ThreatHit) → o ≡ some fs → All IsReported fs)
      → (gs : List ThreatHit) → cons_hit h o ≡ some gs
      → All IsReported gs
  unfolding cons_hit
  cons_hit-Reports h none p k gs e = cc
  cons_hit-Reports h (some fs) p k gs e =
      let q : h ∷ fs ≡ gs = cc in subst (All IsReported) q (p, k fs refl)

  cons_fresh-Reports :
      (b : Bool) (h : ThreatHit) (r : Reconciled)
      → IsReported h
      → Reports r
      → Reports (cons_fresh b h r)
  unfolding cons_fresh
  cons_fresh-Reports true h r p k = cons_hit-Reports h r.fresh p k
  cons_fresh-Reports false h r p k = k

  if-Reports : (b : Bool) (x y : Reconciled) → Reports x → Reports y → Reports (if b then x else y)
  if-Reports true x y h k = h
  if-Reports false x y h k = k

  failed-Reports : (m : Map PriorRow) → Reports (record { fresh = none; stored = m })
  failed-Reports m fs e = cc

  module _ (writes : Map PriorRow → ThreatHit → Bool) where
    reconcile_from-Reports :
        (hs : List ThreatHit) (m : Map PriorRow)
        → All (λ h. P (inventory_of h) (match_of h)) hs
        → Reports (reconcile_from writes m hs)
    unfolding reconcile_from settled_hit
    reconcile_from-Reports [] m u = λ fs e. let q : [] ≡ fs = cc in subst (All IsReported) q tt
    reconcile_from-Reports (h ∷ hs) m (p, ps) =
        if-Reports (is_empty (trim_space h.advisory_id)) _ _ (reconcile_from-Reports hs m ps) (
          if-Reports (writes m (settled_hit (lookup (key_of h) m) h)) _ _
            (cons_fresh-Reports _ _ _ p (reconcile_from-Reports hs (next_rows m h) ps))
            (failed-Reports m))

    -- A reported hit has the statuses, after their defaults, of one that was given.
    pub reconcile_hits-IsReported :
        (loads : Bool) (rows : Map PriorRow) (hits fresh : List ThreatHit)
        → (reconcile_hits writes loads rows hits).fresh ≡ some fresh
        → All (λ h. P (inventory_of h) (match_of h)) hits
        → All IsReported fresh
    unfolding reconcile_hits
    reconcile_hits-IsReported loads rows hits fresh e ps =
        if-Reports loads _ _ (reconcile_from-Reports hits rows ps) (failed-Reports rows) fresh e
