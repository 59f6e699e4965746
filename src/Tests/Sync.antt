-- ===== src/Tests/Sync.antt =====
-- A sync of one project whose package.json has a vulnerable dependency.
use hen_kai_pan.Prelude.{suc, ◌≤◌, Bool, true, List, [], ◌∷◌, Option, none, some, ◌≡◌, refl, arith}
use hen_kai_pan.Strings.{
  Text, lit, text_eq, is_empty, equal_fold, trim_space, has_prefix, index, contains, contains_any,
  split, trim_suffix, trim_set, path_base, scan_lines, cut, fields,
}
use hen_kai_pan.Maps.{Map, lookup}
use hen_kai_pan.Threats.Runtime.{runtime_rank}
use hen_kai_pan.Threats.Records.{Dependency, QueryHit}
use hen_kai_pan.Threats.Manifest.Result.{ok}
use hen_kai_pan.Threats.Manifest.Parse.{parse_manifest}
use hen_kai_pan.Threats.Manifest.GoMod.{parse_go_mod}
use hen_kai_pan.Threats.Manifest.Sort.{sort_rows}
use hen_kai_pan.Repository.Hits.{ThreatHit, PriorRow, reconcile_hits, reconcile_key}
use hen_kai_pan.Repository.Hits.Levels.{IsAtLeast, reconcile_hits-IsAtLeast}
use hen_kai_pan.Tasks.Effects.{count}
use hen_kai_pan.Tests.Worker.{env, no_events}
use hen_kai_pan.Tasks.ThreatNotify.{NotifyDeps, notify_for_hits}
use hen_kai_pan.Tasks.ThreatNotify.Rescans.{creates, notify_for_hits-one_rescan}
use hen_kai_pan.Tasks.ThreatNotify.Silence.{announces}
use hen_kai_pan.Tasks.Fetch.{
  Project, Url, Repo, Http, response, found, fetch_project_manifest, fetch_first,
  parse_git_hub_repo, is_repo_path_component, parse_url,
}
use hen_kai_pan.Tasks.Fetch.Components.{IsRepo, parse_git_hub_repo-IsRepo}
use hen_kai_pan.Tasks.Fetch.FirstHit.{IsFirstHit, fetch_first-IsFirstHit}
use hen_kai_pan.Tasks.Sync.{
  SyncDeps, SyncError, catalog_of, threat_hits, threat_hit_from_match, sync_project,
  sync_threat_intel,
}
use hen_kai_pan.Tasks.Sync.Projects.{
  Synced, successes, failures, sync_threat_intel_all, sync_threat_intel_one_project,
}
use hen_kai_pan.Tasks.Sync.Repeat.{hits_of, writes_of, Remembers, sync_project_repeat}
use hen_kai_pan.Tasks.Sync.Silence.{
  KeepsUnconfirmed, reconcile_hits-keeps, sync_threat_intel_silent,
}

abbrev no_url : Text → Option Url
no_url raw = none

abbrev project : Project
project = record {
  id = lit "p1";
  provider = lit "github";
  repo_url = some (lit "acme/shop");
  default_branch = [];
}

abbrev repo : Repo
repo = record { owner = lit "acme"; repo = lit "shop"; branch = lit "main" }

-- Every path answers with the same body.
abbrev http : Http
http = record {
  query_escape = λ s. s;
  get = λ url token. response (record { status = 200; body = some (lit "{}") });
}

abbrev vulnerable : QueryHit
vulnerable = record {
  dependency = record {
    ecosystem = lit "npm";
    name = lit "lodash";
    version = lit "1";
    source_file = lit "package.json";
  };
  advisory = record {
    advisory_id = lit "GHSA-1";
    source = lit "osv";
    cve_id = [];
    aliases = [];
    severity = [];
    affected_packages = record { ecosystem = lit "npm"; name = lit "lodash"; ranges = [] } ∷ [];
  };
}

abbrev always : Map PriorRow → ThreatHit → Bool
always m h = true

abbrev deps : SyncDeps
deps = record {
  list_all_projects = λ tr. some (project ∷ project ∷ []);
  fetch_manifest = λ tr p. fetch_project_manifest no_url http [] p [];
  query_osv = λ tr ds. some (vulnerable ∷ []);
  fetch_kev = λ tr. none;
  upsert_dependencies = λ tr id ds. true;
  upsert_advisories = λ tr as'. true;
  reconcile = λ tr id hits. (reconcile_hits always true [] hits).fresh;
  notify = none;
  decode_package_json = λ s. none;
  marshal_evidence = λ e. none;
}

sync_threat_intel_all_example :
    (es : List (Option SyncError)) × Synced env deps
      (catalog_of none)
      no_events
      (project ∷ project ∷ [])
      es
      (sync_threat_intel env deps [] no_events).1
    × ((sync_threat_intel env deps [] no_events).0 ≡ some (successes es, failures es))
sync_threat_intel_all_example =
    sync_threat_intel_all env deps (project ∷ project ∷ []) no_events refl

sync_threat_intel_one_project_example :
    sync_threat_intel env deps (lit "p1") no_events ≡ (some (0, 1), no_events)
unfolding is_empty
sync_threat_intel_one_project_example =
    sync_threat_intel_one_project env deps no_url http [] [] (lit "p1") no_events (λ tr p. refl)
      refl

abbrev notify : NotifyDeps
notify = record {
  webhooks = true;
  settings = true;
  scans = true;
  targets = true;
  notifications_enabled = true;
  rescan_scanner = [];
  project_target = λ tr id. some (lit "https://github.com/acme/shop");
  insert = λ tr target scanner batch id. some (lit "s9");
}

-- A store that has reconciled the hits of an earlier sync, with everything that a sync can notify.
abbrev repeating : SyncDeps
repeating = record deps {
  fetch_manifest = λ tr p. found (lit "go.mod") (lit "module m\nrequire a v1.0.0");
  reconcile = λ tr id hits.
      (reconcile_hits always true
        (reconcile_hits always true [] (hits_of deps [] (vulnerable ∷ []))).stored hits).fresh;
  notify = some notify;
}

-- The same with an empty store.
abbrev reporting : SyncDeps
reporting = record repeating {
  reconcile = λ tr id hits. (reconcile_hits always true [] hits).fresh;
}

keeps : KeepsUnconfirmed reporting
keeps tr id hits fresh e u = reconcile_hits-keeps always true [] hits fresh e u

sync_threat_intel_silent_example :
    count announces (sync_threat_intel env reporting [] no_events).1 ≡ count announces no_events
sync_threat_intel_silent_example = sync_threat_intel_silent env reporting keeps [] no_events

abbrev required : List Dependency
required =
    record {
      ecosystem = lit "go";
      name = lit "a";
      version = lit "v1.0.0";
      source_file = lit "go.mod";
    }
    ∷ []

parsed_manifest :
    parse_manifest repeating.decode_package_json (lit "go.mod") (lit "module m\nrequire a v1.0.0")
    ≡ ok required
unfolding parse_manifest trim_space text_eq path_base parse_go_mod scan_lines cut has_prefix fields
    sort_rows
parsed_manifest = refl

remembered : Remembers repeating project.id always [] (hits_of repeating [] (vulnerable ∷ []))
unfolding threat_hits threat_hit_from_match
remembered tr hits = refl

sync_project_repeat_example :
    sync_project env repeating project [] no_events
    ≡ (none, writes_of repeating project.id [] (vulnerable ∷ []) required)
sync_project_repeat_example =
    sync_project_repeat env repeating project [] [] (vulnerable ∷ []) always [] (λ m h. refl)
      remembered (lit "go.mod") (lit "module m\nrequire a v1.0.0") required no_events refl
      parsed_manifest (λ tr. refl) (λ tr. refl) (λ tr. refl)

abbrev confirmed : PriorRow
confirmed = record { inventory = lit "declared"; runtime = lit "L3"; matched = lit "unconfirmed" }

abbrev seen_hit : ThreatHit
seen_hit = record {
  advisory_id = lit "GHSA-1";
  pkg_name = lit "lodash";
  pkg_version = lit "1";
  inventory_status = [];
  runtime_status = [];
  match_status = [];
  evidence = [];
}

abbrev seen_key : Text
seen_key = reconcile_key (lit "GHSA-1") (lit "lodash") (lit "1")

abbrev stored_rows : Map PriorRow
stored_rows = (seen_key, confirmed) ∷ []

at_third : IsAtLeast 3 seen_key stored_rows
unfolding lookup text_eq reconcile_key runtime_rank
at_third = record { row = confirmed; level = 3; found = refl; ranked = refl; above = ground arith }

reconcile_hits-IsAtLeast_example :
    IsAtLeast 3 seen_key (reconcile_hits always true stored_rows (seen_hit ∷ [])).stored
reconcile_hits-IsAtLeast_example =
    reconcile_hits-IsAtLeast always 3 seen_key true stored_rows (seen_hit ∷ []) at_third

notify_for_hits-one_rescan_example :
    count creates (notify_for_hits env notify (lit "p1") (seen_hit ∷ seen_hit ∷ []) [] no_events).1
    ≤ suc (count creates no_events)
notify_for_hits-one_rescan_example =
    notify_for_hits-one_rescan env notify (lit "p1") (seen_hit ∷ seen_hit ∷ []) [] no_events

parsed_repo : parse_git_hub_repo no_url project ≡ some repo
unfolding parse_git_hub_repo parse_url is_repo_path_component is_empty equal_fold trim_space
    has_prefix index contains contains_any split trim_suffix trim_set
parsed_repo = refl

parse_git_hub_repo-IsRepo_example : IsRepo repo
parse_git_hub_repo-IsRepo_example = parse_git_hub_repo-IsRepo no_url project repo parsed_repo

abbrev two_paths : List Text
two_paths = lit "package.json" ∷ lit "go.mod" ∷ []

fetched_first : fetch_first http [] [] repo two_paths ≡ found (lit "package.json") (lit "{}")
unfolding fetch_first is_empty trim_space
fetched_first = refl

fetch_first-IsFirstHit_example :
    IsFirstHit http [] [] repo two_paths (lit "package.json") (lit "{}")
fetch_first-IsFirstHit_example =
    fetch_first-IsFirstHit http [] [] repo two_paths (lit "package.json") (lit "{}") fetched_first
