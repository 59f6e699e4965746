-- ===== src/Tasks/Scheduler.antt =====
-- One round of the scan scheduler: `runDueSchedules` of internal/tasks/scan_scheduler.go. The parser of cron
-- expressions is a parameter.
pub mod Marks
use hen_kai_pan.Prelude.{ℕ, Bool, true, false, List, [], ◌∷◌, Option, none, some, if◌then◌else◌}
use hen_kai_pan.Strings.{Text, lit, is_empty}
use hen_kai_pan.Scanner.Registry.{resolve_pack}
use hen_kai_pan.Tasks.World.{
  Env, Event, Act, ScanPayload, scan_run, created_scan, marked_run, pure, asks, emit, ◌>>=◌, ◌>>◌,
}
use hen_kai_pan.Tasks.Notify.{enqueue}

pub record Schedule : Type 0 where
  pub id : Text
  pub project_id : Text
  pub app_id : Option Text
  pub scanner : Text
  pub scanner_type : Option Text
  pub cron_expr : Text

-- A project of `Apps`: what the scheduler reads of it.
pub record Target : Type 0 where
  pub id : Text
  pub repo_url : Option Text

pub record SchedulerDeps : Type 0 where
  pub list_due : List Event → Option (List Schedule)
  pub get_project : List Event → Text → Option Target
  pub get_app : List Event → Text → Option (List Target)
  -- `Scans.Insert`: the id of the new scan.
  pub insert : List Event → Text → Text → Text → Text → Option Text
  -- The time after a given one, where the expression is valid.
  pub parse_cron : Text → Option (ℕ → ℕ)

given : Option Text → Text
given none = []
given (some s) = s

names_or : Option (List Text) → Text → List Text
names_or none scanner = scanner ∷ []
names_or (some names) scanner = names

unfoldable pub resolve_scanners : Schedule → List Text
unfolding names_or resolve_pack given is_empty
resolve_scanners s =
    if is_empty (given s.scanner_type)
    then s.scanner ∷ []
    else names_or (resolve_pack (given s.scanner_type)) s.scanner

module _ (env : Env) (deps : SchedulerDeps) where
  pub enqueue_created : Text → Text → Text → Option Text → Act (Unit {0})
  unfolding enqueue
  enqueue_created target project_id name none = pure tt
  enqueue_created target project_id name (some scan_id) = do
    u ← emit (created_scan target name (lit "scheduled") project_id)
    sent ← enqueue env (
        scan_run
          (record { scan_id = scan_id; project_id = project_id; target = target; scanner = name }))
    pure tt

  unfoldable pub enqueue_scans_for_project : Text → Text → List Text → Act (Unit {0})
  unfolding enqueue_created
  enqueue_scans_for_project target project_id [] = pure tt
  enqueue_scans_for_project target project_id (name ∷ names) = do
    scan_id ← asks (λ tr. deps.insert tr target name (lit "scheduled") project_id)
    u ← enqueue_created target project_id name scan_id
    enqueue_scans_for_project target project_id names

  pub scan_target : List Text → Text → Text → Act (Unit {0})
  unfolding enqueue_scans_for_project
  scan_target names project_id url =
      if is_empty url then pure tt else enqueue_scans_for_project url project_id names

  pub scan_project : List Text → Text → Option Target → Act (Unit {0})
  unfolding scan_target given
  scan_project names project_id none = pure tt
  scan_project names project_id (some p) = scan_target names project_id (given p.repo_url)

  unfoldable pub process_project_schedule : Schedule → List Text → Act (Unit {0})
  unfolding scan_project
  process_project_schedule s names = do
    project ← asks (λ tr. deps.get_project tr s.project_id)
    scan_project names s.project_id project

  pub scan_projects : List Text → List Target → Act (Unit {0})
  unfolding scan_target given
  scan_projects names [] = pure tt
  scan_projects names (p ∷ ps) = scan_target names p.id (given p.repo_url) >> scan_projects names ps

  pub scan_app : List Text → Option (List Target) → Act (Unit {0})
  unfolding scan_projects
  scan_app names none = pure tt
  scan_app names (some ps) = scan_projects names ps

  unfoldable pub process_app_schedule : Text → List Text → Act (Unit {0})
  unfolding scan_app
  process_app_schedule app_id names = do
    app ← asks (λ tr. deps.get_app tr app_id)
    scan_app names app

  pub next_run : Option (ℕ → ℕ) → ℕ → Option ℕ
  next_run none now = none
  next_run (some next) now = some (next now)

  unfoldable pub update_schedule_next_run : Schedule → Act (Unit {0})
  unfolding next_run
  update_schedule_next_run s = do
    next ← asks (λ tr. next_run (deps.parse_cron s.cron_expr) (env.now tr))
    emit (marked_run s.id next)

  process_schedule : Schedule → List Text → Act (Unit {0})
  unfolding process_app_schedule process_project_schedule given
  process_schedule s names =
      if is_empty (given s.app_id)
      then process_project_schedule s names
      else process_app_schedule (given s.app_id) names

  pub run_schedule : Schedule → List Text → Act (Unit {0})
  unfolding process_schedule update_schedule_next_run
  run_schedule s [] = pure tt
  run_schedule s (name ∷ names) = process_schedule s (name ∷ names) >> update_schedule_next_run s

  pub run_each : List Schedule → Act (Unit {0})
  unfolding run_schedule resolve_scanners
  run_each [] = pure tt
  run_each (s ∷ ss) = run_schedule s (resolve_scanners s) >> run_each ss

  pub run_listed : Option (List Schedule) → Act (Unit {0})
  unfolding run_each
  run_listed none = pure tt
  run_listed (some schedules) = run_each schedules

  unfoldable pub run_due_schedules : Act (Unit {0})
  unfolding run_listed
  run_due_schedules = do schedules ← asks deps.list_due; run_listed schedules
