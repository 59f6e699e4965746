-- ===== src/Tasks/Sync/Projects.antt =====
-- What a sync does with its projects.
use hen_kai_pan.Prelude.{ℕ, suc, false, List, [], ◌∷◌, Option, none, some, ◌≡◌, refl, ap, ◌∙◌}
use hen_kai_pan.Strings.{Text, is_empty}
use hen_kai_pan.Maps.{Map}
use hen_kai_pan.Threats.Kev.{KevEntry}
use hen_kai_pan.Tasks.World.{Env, Event, pure, asks, ◌>>=◌}
use hen_kai_pan.Tasks.Fetch.{
  Project, Url, Http, fetch_project_manifest, parse_git_hub_repo, parse_url, fetch_repo,
}
use hen_kai_pan.Tasks.Sync.{
  SyncDeps, SyncError, sync_project, sync_each, sync_listed, sync_threat_intel, catalog_of, only_id,
  count_synced, sync_fetched,
}

abbrev pub successes : List (Option SyncError) → ℕ
successes [] = 0
successes (none ∷ es) = suc (successes es)
successes (some e ∷ es) = successes es

abbrev pub failures : List (Option SyncError) → ℕ
failures [] = 0
failures (none ∷ es) = failures es
failures (some e ∷ es) = suc (failures es)

counted :
    (e : Option SyncError) (es : List (Option SyncError))
    → count_synced e (successes es, failures es) ≡ (successes (e ∷ es), failures (e ∷ es))
counted none es = refl
counted (some e) es = refl

module _ (env : Env) (deps : SyncDeps) where
  -- The projects are synced one after the other, each from what the ones before it left behind.
  pub data Synced (kev : Map KevEntry)
      : List Event → List Project → List (Option SyncError) → List Event → Type 0 where
    none_left : (tr : List Event) → Synced kev tr [] [] tr
    one_more :
        (tr tr' : List Event) (p : Project) (ps : List Project) (es : List (Option SyncError))
        → Synced kev (sync_project env deps p kev tr).1 ps es tr'
        → Synced kev tr (p ∷ ps) ((sync_project env deps p kev tr).0 ∷ es) tr'

  sync_each-Synced :
      (kev : Map KevEntry) (projects : List Project) (tr : List Event)
      → (es : List (Option SyncError)) × Synced kev tr projects es
          (sync_each env deps kev projects tr).1
        × ((sync_each env deps kev projects tr).0 ≡ (successes es, failures es))
  unfolding sync_each pure ◌>>=◌
  sync_each-Synced kev [] tr = ([], none_left tr, refl)
  sync_each-Synced kev (p ∷ ps) tr =
      let (e, tr') = sync_project env deps p kev tr in
      let (es, run, counts) = sync_each-Synced kev ps tr' in
      (e ∷ es, one_more tr _ p ps es run, ap (count_synced e) counts ∙ counted e es)

  -- A sync of every project runs the sync of each listed project exactly once and in order, whatever the
  -- ones before it returned; it has no other effect, and counts the projects without an error and the
  -- others.
  pub sync_threat_intel_all :
      (projects : List Project) (tr : List Event)
      → deps.list_all_projects tr ≡ some projects
      → (es : List (Option SyncError)) × Synced
          (catalog_of (deps.fetch_kev tr))
          tr
          projects
          es
          (sync_threat_intel env deps [] tr).1
        × ((sync_threat_intel env deps [] tr).0 ≡ some (successes es, failures es))
  unfolding sync_threat_intel sync_listed is_empty pure asks ◌>>=◌
  sync_threat_intel_all projects tr h =
      let (es, run, counts) = sync_each-Synced (catalog_of (deps.fetch_kev tr)) projects tr in
      rw h (es, run, ap some counts)

  -- With the manifests of `FetchManifestForProject`, a sync of one project skips it, and changes nothing:
  -- the project that it makes up has no repository URL.
  pub sync_threat_intel_one_project :
      (parse : Text → Option Url) (http : Http) (api_base token id : Text) (tr : List Event)
      → ((tr' : List Event) (p : Project)
          → deps.fetch_manifest tr' p ≡ fetch_project_manifest parse http api_base p token)
      → is_empty id ≡ false
      → sync_threat_intel env deps id tr ≡ (some (0, 1), tr)
  unfolding sync_threat_intel sync_listed sync_each sync_project sync_fetched fetch_project_manifest
      parse_git_hub_repo parse_url fetch_repo pure asks ◌>>=◌ is_empty
  sync_threat_intel_one_project parse http api_base token id tr h e = rw (e, h tr (only_id id)) refl
