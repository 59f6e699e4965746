-- ===== src/Repository/Hits.antt =====
-- `ReconcileHits` of internal/repository/threats.go. The rows of one project are a map from
-- `reconcileKey`; whether a write succeeds is a parameter, which may depend on the rows.
pub mod Levels
pub mod Repeats
pub mod Fresh
use hen_kai_pan.Prelude.{
  ℕ, Bool, true, false, List, [], ◌∷◌, ◌++◌, Option, none, some, if◌then◌else◌, ◌||◌, not,
}
use hen_kai_pan.Strings.{Text, lit, text_eq, is_empty, trim_space}
use hen_kai_pan.Maps.{Map, lookup, insert}
use hen_kai_pan.Threats.Runtime.{Promotion, promoted, refused, promote_runtime}

pub record ThreatHit : Type 0 where
  pub advisory_id : Text
  pub pkg_name : Text
  pub pkg_version : Text
  pub inventory_status : Text
  pub runtime_status : Text
  pub match_status : Text
  pub evidence : Text

pub record PriorRow : Type 0 where
  pub inventory : Text
  pub runtime : Text
  pub matched : Text

unfoldable pub reconcile_key : Text → Text → Text → Text
reconcile_key advisory_id pkg_name pkg_version =
    advisory_id ++ (0 ∷ []) ++ pkg_name ++ (0 ∷ []) ++ pkg_version

abbrev pub key_of : ThreatHit → Text
key_of h = reconcile_key h.advisory_id h.pkg_name h.pkg_version

-- `if s == "" { s = d }`
unfoldable pub default_text : Text → Text → Text
default_text [] d = d
default_text (c ∷ cs) d = c ∷ cs

-- A refused promotion keeps the stored level.
kept_runtime : Text → Promotion → Text
kept_runtime stored (promoted r) = r
kept_runtime stored (refused e) = stored

unfoldable pub final_runtime : Option PriorRow → Text → Text
unfolding kept_runtime promote_runtime
final_runtime none status = status
final_runtime (some prev) status = kept_runtime prev.runtime (promote_runtime prev.runtime status)

-- The hit with its defaults, and the runtime level that is stored.
unfoldable pub settled_hit : Option PriorRow → ThreatHit → ThreatHit
unfolding default_text final_runtime
settled_hit prev h = record {
  advisory_id = h.advisory_id;
  pkg_name = h.pkg_name;
  pkg_version = h.pkg_version;
  inventory_status = default_text h.inventory_status (lit "declared");
  runtime_status = final_runtime prev (default_text h.runtime_status (lit "L0"));
  match_status = default_text h.match_status (lit "unconfirmed");
  evidence = h.evidence;
}

abbrev pub row_of : ThreatHit → PriorRow
row_of h = record {
  inventory = h.inventory_status;
  runtime = h.runtime_status;
  matched = h.match_status;
}

-- The rows after the hit is written.
abbrev pub next_rows : Map PriorRow → ThreatHit → Map PriorRow
next_rows m h = insert (key_of h) (row_of (settled_hit (lookup (key_of h) m) h)) m

-- `!existed || prev.inventory != inventoryStatus || prev.match != matchStatus`
unfoldable pub is_fresh : Option PriorRow → ThreatHit → Bool
is_fresh none h = true
is_fresh (some prev) h =
    not (text_eq prev.inventory h.inventory_status) || not (text_eq prev.matched h.match_status)

-- What is returned, or the error, and the rows as they are left.
pub record Reconciled : Type 0 where
  pub fresh : Option (List ThreatHit)
  pub stored : Map PriorRow

cons_hit : ThreatHit → Option (List ThreatHit) → Option (List ThreatHit)
cons_hit h none = none
cons_hit h (some hs) = some (h ∷ hs)

pub cons_fresh : Bool → ThreatHit → Reconciled → Reconciled
unfolding cons_hit
cons_fresh false h r = r
cons_fresh true h r = record r { fresh = cons_hit h r.fresh }

module _ (writes : Map PriorRow → ThreatHit → Bool) where
  -- The loop over the hits, with the map `prior`.
  pub reconcile_from : Map PriorRow → List ThreatHit → Reconciled
  unfolding settled_hit is_fresh cons_fresh reconcile_key
  reconcile_from prior [] = record { fresh = some []; stored = prior }
  reconcile_from prior (h ∷ hs) =
      let skipped = reconcile_from prior hs in
      let prev = lookup (key_of h) prior in
      let settled = settled_hit prev h in
      let rest = reconcile_from (next_rows prior h) hs in
      if is_empty (trim_space h.advisory_id)
      then skipped
      else if writes prior settled
      then cons_fresh (is_fresh prev settled) settled rest
      else record { fresh = none; stored = prior }

  -- `rows` is what the first query reads; it may fail.
  unfoldable pub reconcile_hits : Bool → Map PriorRow → List ThreatHit → Reconciled
  unfolding reconcile_from
  reconcile_hits loads rows hits =
      if loads then reconcile_from rows hits else record { fresh = none; stored = rows }
