-- ===== src/Tasks/Sync/Repeat.antt =====
-- What a sync does that finds what an earlier one has stored.
use hen_kai_pan.Prelude.{
  Bool, true, false, List, [], ◌∷◌, ◌++◌, Option, none, some, ◌≡◌, refl, ap, ◌∙◌, if◌then◌else◌,
  append_assoc,
}
use hen_kai_pan.Strings.{Text, text_eq}
use hen_kai_pan.Maps.{Map}
use hen_kai_pan.Threats.Records.{Dependency, Advisory, QueryHit}
use hen_kai_pan.Threats.Kev.{KevEntry, is_kev}
use hen_kai_pan.Threats.Matcher.{Hit, match_query_hits, inventory_hit, build_hit, match_finding}
use hen_kai_pan.Threats.Manifest.Result.{ok}
use hen_kai_pan.Threats.Manifest.Parse.{parse_manifest}
use hen_kai_pan.Threats.Osv.{dedupe_query_advisories}
use hen_kai_pan.Repository.Hits.{ThreatHit, PriorRow, reconcile_hits, default_text}
use hen_kai_pan.Repository.Hits.Repeats.{reconcile_hits_repeat}
use hen_kai_pan.Tasks.World.{
  Env, Event, upserted_dependencies, upserted_advisories, reconciled, pure, asks, emit, ◌>>=◌,
}
use hen_kai_pan.Tasks.Fetch.{Project, found}
use hen_kai_pan.Tasks.ThreatNotify.{NotifyDeps}
use hen_kai_pan.Tasks.ThreatNotify.Silence.{notify_for_hits_nil}
use hen_kai_pan.Tasks.Sync.{
  SyncDeps, threat_advisory_meta, threat_hits, threat_hit_from_match, notify_project,
  reconcile_project, store_advisories, sync_inventory, sync_fetched, sync_project,
}
use hen_kai_pan.Tasks.Sync.Silence.{threat_hits-IsUnconfirmed, All-Agrees}

module _ (deps : SyncDeps) where
  -- The hits of a sync.
  abbrev pub hits_of : Map KevEntry → List QueryHit → List ThreatHit
  hits_of kev query_hits = threat_hits deps (match_query_hits query_hits kev [])

  -- The catalog leaves no mark on what is stored of a declared hit.
  threat_hit-kev :
      (adv : Advisory) (b c : Bool) (dep : Dependency)
      → threat_hit_from_match deps (inventory_hit adv b [] dep)
        ≡ threat_hit_from_match deps (inventory_hit adv c [] dep)
  unfolding inventory_hit build_hit match_finding threat_hit_from_match text_eq default_text
  threat_hit-kev adv true true dep = refl
  threat_hit-kev adv true false dep = refl
  threat_hit-kev adv false true dep = refl
  threat_hit-kev adv false false dep = refl

  same_if :
      (b : Bool) (x x' y y' : List Hit)
      → threat_hits deps x ≡ threat_hits deps x'
      → threat_hits deps y ≡ threat_hits deps y'
      → threat_hits deps (if b then x else y) ≡ threat_hits deps (if b then x' else y')
  same_if true x x' y y' h k = h
  same_if false x x' y y' h k = k

  same_cons :
      (h h' : Hit) (x x' : List Hit)
      → threat_hit_from_match deps h ≡ threat_hit_from_match deps h'
      → threat_hits deps x ≡ threat_hits deps x'
      → threat_hits deps (h ∷ x) ≡ threat_hits deps (h' ∷ x')
  unfolding threat_hits
  same_cons h h' x x' e k = rw (e, k) refl

  hits_of-kev : (kev kev' : Map KevEntry) (q : List QueryHit) → hits_of kev q ≡ hits_of kev' q
  unfolding match_query_hits
  hits_of-kev kev kev' [] = refl
  hits_of-kev kev kev' (h ∷ hs) =
      search (same_if, same_cons, threat_hit-kev, hits_of-kev kev kev' hs)

-- What a store that starts from `rows`, where every write succeeds, reports once it holds `earlier`.
abbrev pub Remembers :
    SyncDeps → Text → (Map PriorRow → ThreatHit → Bool) → Map PriorRow → List ThreatHit → Type 0
Remembers deps id writes rows earlier =
    (tr : List Event) (hits : List ThreatHit)
    → deps.reconcile tr id hits
      ≡ (reconcile_hits writes true (reconcile_hits writes true rows earlier).stored hits).fresh

-- The three writes of a sync that skips nothing.
abbrev pub writes_of : SyncDeps → Text → Map KevEntry → List QueryHit → List Dependency → List Event
writes_of deps id kev query_hits inventory =
    upserted_dependencies id inventory
    ∷ upserted_advisories (dedupe_query_advisories query_hits)
        (λ cve_id aliases. is_kev cve_id aliases kev)
    ∷ reconciled id (hits_of deps kev query_hits)
    ∷ []

append_three :
    {A : Type 0} (xs : List A) (a b c : A)
    → ((xs ++ a ∷ []) ++ b ∷ []) ++ c ∷ [] ≡ xs ++ a ∷ b ∷ c ∷ []
append_three xs a b c =
    append_assoc (xs ++ a ∷ []) (b ∷ []) (c ∷ []) ∙ append_assoc xs (a ∷ []) (b ∷ c ∷ [])

module _ (env : Env) (deps : SyncDeps) (project : Project) (kev kev' : Map KevEntry)
    (query_hits : List QueryHit) (writes : Map PriorRow → ThreatHit → Bool) (rows : Map PriorRow)
    (accepts : (m : Map PriorRow) (h : ThreatHit) → writes m h ≡ true)
    (remembers : Remembers deps project.id writes rows (hits_of deps kev query_hits)) where
  nothing_fresh :
      (tr : List Event) → deps.reconcile tr project.id (hits_of deps kev' query_hits) ≡ some []
  nothing_fresh tr =
      rw (hits_of-kev deps kev' kev query_hits, remembers tr (hits_of deps kev query_hits))
        (reconcile_hits_repeat _ writes rows _ accepts
          (All-Agrees _ (threat_hits-IsUnconfirmed deps kev query_hits)))

  notified :
      (o : Option NotifyDeps) (advisories : List Advisory) (tr : List Event)
      → notify_project env deps project.id o advisories kev' (some []) tr ≡ (none, tr)
  unfolding notify_project pure ◌>>=◌
  notified none advisories tr = refl
  notified (some notify) advisories tr =
      ap (λ r. (none, r.1))
        (notify_for_hits_nil env notify project.id (threat_advisory_meta advisories kev') tr)

  reconcile_project_repeat :
      (advisories : List Advisory) (tr : List Event)
      → reconcile_project env deps project.id advisories kev' query_hits tr
        ≡ (none, tr ++ reconciled project.id (hits_of deps kev' query_hits) ∷ [])
  unfolding reconcile_project pure asks emit ◌>>=◌
  reconcile_project_repeat advisories tr = rw (nothing_fresh tr) (notified deps.notify advisories _)

  -- Where the store, none of whose writes fails, holds the hits of an earlier sync of the project, with the same
  -- answer of the OSV server and whatever catalog, and the other calls of the sync succeed too, it stores the
  -- dependencies, the advisories and the same hits, and does nothing else: it notifies nobody and creates and
  -- queues no scan, however the notifications are set up.
  pub sync_project_repeat :
      (source_file content : Text) (inventory : List Dependency) (tr : List Event)
      → deps.fetch_manifest tr project ≡ found source_file content
      → parse_manifest deps.decode_package_json source_file content ≡ ok inventory
      → ((tr' : List Event) → deps.upsert_dependencies tr' project.id inventory ≡ true)
      → ((tr' : List Event) → deps.query_osv tr' inventory ≡ some query_hits)
      → ((tr' : List Event)
          → deps.upsert_advisories tr' (dedupe_query_advisories query_hits) ≡ true)
      → sync_project env deps project kev' tr
        ≡ (none, tr ++ writes_of deps project.id kev' query_hits inventory)
  unfolding sync_project sync_fetched sync_inventory store_advisories pure asks emit ◌>>=◌
  sync_project_repeat source_file content inventory tr f p d q a =
      rw (f, p, d tr, q _, a _)
        (reconcile_project_repeat (dedupe_query_advisories query_hits) _
          ∙ ap (λ t. (none, t)) (append_three tr _ _ _))
