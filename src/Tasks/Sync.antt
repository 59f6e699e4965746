-- ===== src/Tasks/Sync.antt =====
-- The synchronisation of threat intelligence, internal/tasks/threatintel.go.
pub mod Projects
pub mod Silence
pub mod Repeat
use hen_kai_pan.Prelude.{
  ℕ, suc, Bool, true, false, List, [], ◌∷◌, ◌++◌, Option, none, some, if◌then◌else◌, map, ◌&&◌, not,
}
use hen_kai_pan.Strings.{Text, lit, is_empty}
use hen_kai_pan.Maps.{Map, insert}
use hen_kai_pan.Threats.Records.{Dependency, Advisory, QueryHit}
use hen_kai_pan.Threats.Kev.{KevEntry, is_kev}
use hen_kai_pan.Threats.Matcher.{
  Hit, Evidence, match_query_hits, status_declared, match_unconfirmed,
}
use hen_kai_pan.Threats.Manifest.Result.{Result, ok, err}
use hen_kai_pan.Threats.Manifest.Npm.{PackageJson}
use hen_kai_pan.Threats.Manifest.Parse.{parse_manifest}
use hen_kai_pan.Threats.Osv.{dedupe_query_advisories}
use hen_kai_pan.Repository.Hits.{ThreatHit, default_text}
use hen_kai_pan.Tasks.World.{
  Env, Event, Act, upserted_dependencies, upserted_advisories, reconciled, pure, asks, emit, ◌>>=◌,
  ◌>>◌,
}
use hen_kai_pan.Tasks.Fetch.{Project, Fetched, found, not_fetched, FetchError, no_manifest_source}
use hen_kai_pan.Tasks.ThreatNotify.{AdvisoryMeta, NotifyDeps, threat_advisory_url, notify_for_hits}

-- `ThreatSyncDeps`, with `json.Unmarshal` and `json.Marshal`. The calls that write answer whether they
-- succeed; `none` is an error elsewhere.
pub record SyncDeps : Type 0 where
  pub list_all_projects : List Event → Option (List Project)
  pub fetch_manifest : List Event → Project → Fetched
  pub query_osv : List Event → List Dependency → Option (List QueryHit)
  pub fetch_kev : List Event → Option (Map KevEntry)
  pub upsert_dependencies : List Event → Text → List Dependency → Bool
  pub upsert_advisories : List Event → List Advisory → Bool
  pub reconcile : List Event → Text → List ThreatHit → Option (List ThreatHit)
  pub notify : Option NotifyDeps
  pub decode_package_json : Text → Option PackageJson
  pub marshal_evidence : Evidence → Option Text

-- Why a project is skipped.
pub data SyncError : Type 0 where
  not_synced_fetch : FetchError → SyncError
  bad_manifest dependencies_failed osv_failed advisories_failed reconcile_failed : SyncError

evidence_bytes : Option Text → Text
evidence_bytes none = []
evidence_bytes (some raw) = raw

module _ (deps : SyncDeps) where
  unfoldable pub threat_hit_from_match : Hit → ThreatHit
  unfolding evidence_bytes default_text
  threat_hit_from_match h = record {
    advisory_id = h.advisory_id;
    pkg_name = h.pkg_name;
    pkg_version = h.pkg_version;
    inventory_status = default_text h.inventory_status status_declared;
    runtime_status = lit "L0";
    match_status = default_text h.match_status match_unconfirmed;
    evidence = evidence_bytes (deps.marshal_evidence h.evidence);
  }

meta_from : Map AdvisoryMeta → Map KevEntry → List Advisory → Map AdvisoryMeta
meta_from out kev [] = out
meta_from out kev (a ∷ as') =
    meta_from
      (insert a.advisory_id
        (record {
          advisory_id = a.advisory_id;
          cve_id = a.cve_id;
          severity = a.severity;
          kev = is_kev a.cve_id a.aliases kev;
          advisory_url = threat_advisory_url a.advisory_id;
        })
        out)
      kev as'

unfoldable pub threat_advisory_meta : List Advisory → Map KevEntry → Map AdvisoryMeta
unfolding meta_from is_kev threat_advisory_url insert
threat_advisory_meta advisories kev = meta_from [] kev advisories

unfoldable pub threat_hits : SyncDeps → List Hit → List ThreatHit
unfolding threat_hit_from_match
threat_hits deps hits = map (threat_hit_from_match deps) hits

-- Without the catalog the sync goes on with an empty one.
pub catalog_of : Option (Map KevEntry) → Map KevEntry
catalog_of none = []
catalog_of (some kev) = kev

-- `models.Project{ID: projectID}`
abbrev pub only_id : Text → Project
only_id id = record { id = id; provider = []; repo_url = none; default_branch = [] }

abbrev pub count_synced : Option SyncError → ℕ × ℕ → ℕ × ℕ
count_synced none (synced, skipped) = (suc synced, skipped)
count_synced (some e) (synced, skipped) = (synced, suc skipped)

module _ (env : Env) (deps : SyncDeps) where
  pub notify_project :
      Text
      → Option NotifyDeps
      → List Advisory
      → Map KevEntry
      → Option (List ThreatHit)
      → Act (Option SyncError)
  unfolding notify_for_hits threat_advisory_meta
  notify_project id notify advisories kev none = pure (some reconcile_failed)
  notify_project id none advisories kev (some fresh) = pure none
  notify_project id (some notify) advisories kev (some fresh) = do
    u ← notify_for_hits env notify id fresh (threat_advisory_meta advisories kev)
    pure none

  -- The hits are matched and reconciled.
  pub reconcile_project :
      Text → List Advisory → Map KevEntry → List QueryHit → Act (Option SyncError)
  unfolding notify_project threat_hits match_query_hits
  reconcile_project id advisories kev query_hits = do
    fresh ←
        asks (λ tr. deps.reconcile tr id (threat_hits deps (match_query_hits query_hits kev [])))
    u ← emit (reconciled id (threat_hits deps (match_query_hits query_hits kev [])))
    notify_project id deps.notify advisories kev fresh

  pub store_advisories : Text → Map KevEntry → Option (List QueryHit) → Act (Option SyncError)
  unfolding reconcile_project dedupe_query_advisories is_kev
  store_advisories id kev none = pure (some osv_failed)
  store_advisories id kev (some query_hits) = do
    stored ← asks (λ tr. deps.upsert_advisories tr (dedupe_query_advisories query_hits))
    u ← emit (
        upserted_advisories (dedupe_query_advisories query_hits)
          (λ cve_id aliases. is_kev cve_id aliases kev))
    if stored
        then reconcile_project id (dedupe_query_advisories query_hits) kev query_hits
        else pure (some advisories_failed)

  pub sync_inventory : Text → Map KevEntry → Result (List Dependency) → Act (Option SyncError)
  unfolding store_advisories
  sync_inventory id kev (err e) = pure (some bad_manifest)
  sync_inventory id kev (ok inventory) = do
    stored ← asks (λ tr. deps.upsert_dependencies tr id inventory)
    u ← emit (upserted_dependencies id inventory)
    if stored
        then (do
          query_hits ← asks (λ tr. deps.query_osv tr inventory)
          store_advisories id kev query_hits)
        else pure (some dependencies_failed)

  pub sync_fetched : Text → Map KevEntry → Fetched → Act (Option SyncError)
  unfolding sync_inventory parse_manifest
  sync_fetched id kev (not_fetched e) = pure (some (not_synced_fetch e))
  sync_fetched id kev (found source_file content) =
      sync_inventory id kev (parse_manifest deps.decode_package_json source_file content)

  -- `none` is a nil error.
  unfoldable pub sync_project : Project → Map KevEntry → Act (Option SyncError)
  unfolding sync_fetched
  sync_project project kev = do
    fetched ← asks (λ tr. deps.fetch_manifest tr project)
    sync_fetched project.id kev fetched

  -- The loop over the projects, with the counters `synced` and `skipped`.
  pub sync_each : Map KevEntry → List Project → Act (ℕ × ℕ)
  unfolding sync_project
  sync_each kev [] = pure (0, 0)
  sync_each kev (p ∷ ps) = do
    e ← sync_project p kev
    counts ← sync_each kev ps
    pure (count_synced e counts)

  pub sync_listed : Option (List Project) → Act (Option (ℕ × ℕ))
  unfolding sync_each catalog_of
  sync_listed none = pure none
  sync_listed (some projects) = do
    kev ← asks deps.fetch_kev
    counts ← sync_each (catalog_of kev) projects
    pure (some counts)

  -- The counters that are logged, or an error of the listing.
  unfoldable pub sync_threat_intel : Text → Act (Option (ℕ × ℕ))
  unfolding sync_listed is_empty
  sync_threat_intel project_id =
      if not (is_empty project_id)
      then sync_listed (some (only_id project_id ∷ []))
      else do projects ← asks deps.list_all_projects; sync_listed projects
