-- ===== src/Repository/Hits/Repeats.antt =====
-- Reconciling the same hits once more.
use hen_kai_pan.Prelude.{
  Bool, true, false, List, [], ◌∷◌, some, ◌≡◌, ◌∙◌, refl, sym, inl, inr, All, ◌⊎◌, Bool-cases,
}
use mathlib.Core.Path.{subst}
use hen_kai_pan.Strings.{Text, Text-cases, text_eq_refl, is_empty, trim_space, lit}
use hen_kai_pan.Maps.{Map, lookup, lookup-insert}
use hen_kai_pan.Repository.Hits.Levels.{stored-cons_fresh}
use hen_kai_pan.Repository.Hits.{
  ThreatHit, PriorRow, key_of, settled_hit, row_of, next_rows, default_text, is_fresh, cons_fresh,
  reconcile_from, reconcile_hits,
}

-- The statuses that a hit is stored with.
abbrev pub inventory_of : ThreatHit → Text
inventory_of h = default_text h.inventory_status (lit "declared")

abbrev pub match_of : ThreatHit → Text
match_of h = default_text h.match_status (lit "unconfirmed")

module _ (status : Text → Text × Text) where
  -- The hit has the statuses that `status` names for its key.
  pub record Agrees (h : ThreatHit) : Type 0 where
    pub same_inventory : inventory_of h ≡ (status (key_of h)).0
    pub same_match : match_of h ≡ (status (key_of h)).1

  -- The row of `k` is stored, with the statuses that `status` names.
  pub record IsSettled (k : Text) (m : Map PriorRow) : Type 0 where
    pub row : PriorRow
    pub found : lookup k m ≡ some row
    pub same_inventory : row.inventory ≡ (status k).0
    pub same_match : row.matched ≡ (status k).1

  own-IsSettled :
      (m : Map PriorRow) (h : ThreatHit) → Agrees h → IsSettled (key_of h) (next_rows m h)
  unfolding settled_hit
  own-IsSettled m h a = record {
    row = row_of (settled_hit (lookup (key_of h) m) h);
    found = lookup-insert (key_of h) (key_of h) _ m ∙ rw (text_eq_refl (key_of h)) refl;
    same_inventory = a.same_inventory;
    same_match = a.same_match;
  }

  next-IsSettled :
      (k : Text) (m : Map PriorRow) (h : ThreatHit)
      → Agrees h
      → IsSettled k m
      → IsSettled k (next_rows m h)
  next-IsSettled k m h a s = elim (Text-cases (key_of h) k) [
    | inl e ↦ rw (← e) (own-IsSettled m h a)
    | inr n ↦ record {
      row = s.row;
      found = lookup-insert (key_of h) k _ m ∙ rw n s.found;
      same_inventory = s.same_inventory;
      same_match = s.same_match;
    }
  ]

  -- A hit whose row is settled is not reported.
  settled-stale :
      (m : Map PriorRow) (h : ThreatHit)
      → Agrees h
      → IsSettled (key_of h) m
      → is_fresh (lookup (key_of h) m) (settled_hit (lookup (key_of h) m) h) ≡ false
  unfolding is_fresh settled_hit
  settled-stale m h a s =
      rw
        (
          s.found,
          s.same_inventory,
          s.same_match,
          a.same_inventory,
          a.same_match,
          text_eq_refl (status (key_of h)).0,
          text_eq_refl (status (key_of h)).1,
        )
        refl

  module _ (writes : Map PriorRow → ThreatHit → Bool)
      (accepts : (m : Map PriorRow) (h : ThreatHit) → writes m h ≡ true) where
    nothing-stored :
        {k : Text} (m : Map PriorRow)
        → IsSettled k m
        → IsSettled k (reconcile_from writes m []).stored
    unfolding reconcile_from
    nothing-stored m s = s

    nothing-fresh : (m : Map PriorRow) → (reconcile_from writes m []).fresh ≡ some []
    unfolding reconcile_from
    nothing-fresh m = refl

    skips :
        (m : Map PriorRow) (h : ThreatHit) (hs : List ThreatHit)
        → is_empty (trim_space h.advisory_id) ≡ true
        → reconcile_from writes m (h ∷ hs) ≡ reconcile_from writes m hs
    unfolding reconcile_from
    skips m h hs e = rw e refl

    steps :
        (m : Map PriorRow) (h : ThreatHit) (hs : List ThreatHit)
        → is_empty (trim_space h.advisory_id) ≡ false
        → reconcile_from writes m (h ∷ hs)
          ≡ cons_fresh
              (is_fresh (lookup (key_of h) m) (settled_hit (lookup (key_of h) m) h))
              (settled_hit (lookup (key_of h) m) h)
              (reconcile_from writes (next_rows m h) hs)
    unfolding reconcile_from
    steps m h hs e = rw (e, accepts m (settled_hit (lookup (key_of h) m) h)) refl

    kept :
        (k : Text) (hs : List ThreatHit) (m : Map PriorRow)
        → All Agrees hs
        → IsSettled k m
        → IsSettled k (reconcile_from writes m hs).stored
    kept k [] m a s = nothing-stored m s
    kept k (h ∷ hs) m (a, as') s = elim (Bool-cases (is_empty (trim_space h.advisory_id))) [
      | inl e ↦ rw (skips m h hs e) (kept k hs m as' s)
      | inr e ↦ rw (steps m h hs e) (
          stored-cons_fresh (IsSettled k) _ _ _
            (kept k hs (next_rows m h) as' (next-IsSettled k m h a s)))
    ]

    abbrev IsDone : Map PriorRow → ThreatHit → Type 0
    IsDone m h = (is_empty (trim_space h.advisory_id) ≡ true) ⊎ IsSettled (key_of h) m

    All-IsDone :
        (hs : List ThreatHit) (m : Map PriorRow)
        → All Agrees hs
        → All (IsDone (reconcile_from writes m hs).stored) hs
    All-IsDone [] m a = tt
    All-IsDone (h ∷ hs) m (a, as') = elim (Bool-cases (is_empty (trim_space h.advisory_id))) [
      | inl e ↦
          subst (λ r. All (IsDone r.stored) (h ∷ hs)) (sym (skips m h hs e))
            (inl e, All-IsDone hs m as')
      | inr e ↦
          subst (λ r. All (IsDone r.stored) (h ∷ hs)) (sym (steps m h hs e))
            (stored-cons_fresh (λ n. All (IsDone n) (h ∷ hs)) _ _ _
              (
                inr (kept (key_of h) hs (next_rows m h) as' (own-IsSettled m h a)),
                All-IsDone hs (next_rows m h) as',
              ))
    ]

    next-IsDone :
        (m : Map PriorRow) (h : ThreatHit) (hs : List ThreatHit)
        → Agrees h
        → All (IsDone m) hs
        → All (IsDone (next_rows m h)) hs
    next-IsDone m h [] a d = tt
    next-IsDone m h (g ∷ gs) a (inl e, ds) = (inl e, next-IsDone m h gs a ds)
    next-IsDone m h (g ∷ gs) a (inr s, ds) =
        (inr (next-IsSettled (key_of g) m h a s), next-IsDone m h gs a ds)

    none_fresh :
        (hs : List ThreatHit) (m : Map PriorRow)
        → All Agrees hs
        → All (IsDone m) hs
        → (reconcile_from writes m hs).fresh ≡ some []
    unfolding cons_fresh
    none_fresh [] m a d = nothing-fresh m
    none_fresh (h ∷ hs) m (a, as') (inl e, ds) = rw (skips m h hs e) (none_fresh hs m as' ds)
    none_fresh (h ∷ hs) m (a, as') (inr s, ds) =
        elim (Bool-cases (is_empty (trim_space h.advisory_id))) [
          | inl e ↦ rw (skips m h hs e) (none_fresh hs m as' ds)
          | inr e ↦
              rw (steps m h hs e, settled-stale m h a s)
                (none_fresh hs (next_rows m h) as' (next-IsDone m h hs a ds))
        ]

-- Hits that are reconciled a second time are not reported again, where the writes succeed and hits of the
-- same key carry the same statuses.
pub reconcile_hits_repeat :
    (status : Text → Text × Text) (writes : Map PriorRow → ThreatHit → Bool) (rows : Map PriorRow)
    (hits : List ThreatHit)
    → ((m : Map PriorRow) (h : ThreatHit) → writes m h ≡ true)
    → All (Agrees status) hits
    → (reconcile_hits writes true (reconcile_hits writes true rows hits).stored hits).fresh
      ≡ some []
unfolding reconcile_hits
reconcile_hits_repeat status writes rows hits accepts a =
    none_fresh status writes accepts hits _ a (All-IsDone status writes accepts hits rows a)
