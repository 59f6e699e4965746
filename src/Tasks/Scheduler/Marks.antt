-- ===== src/Tasks/Scheduler/Marks.antt =====
-- Every due schedule is moved on.
use hen_kai_pan.Prelude.{
  ℕ, suc, ◌+◌, Bool, true, false, List, [], ◌∷◌, Option, none, some, ◌≡◌, refl, arith,
  if◌then◌else◌, Bool-cases, inl, inr,
}
use hen_kai_pan.Strings.{Text, text_eq, is_empty}
use hen_kai_pan.Scanner.Registry.{resolve_pack}
use hen_kai_pan.Scanner.Registry.Packs.{is_pack, resolve_pack-is_pack}
use hen_kai_pan.Tasks.World.{Env, Event, marked_run, pure, asks, emit, ◌>>=◌}
use hen_kai_pan.Tasks.Effects.{
  count, Quiet, Quiet-count, Quiet-bind, Once, Once-count, Once-emit, Once-right, quiets,
}
use hen_kai_pan.Tasks.Notify.Effects.{enqueue-Quiet}
use hen_kai_pan.Tasks.Scheduler.{
  Schedule, Target, SchedulerDeps, given, names_or, resolve_scanners, enqueue_created,
  enqueue_scans_for_project, scan_target, scan_project, process_project_schedule, scan_projects,
  scan_app, process_app_schedule, next_run, update_schedule_next_run, process_schedule,
  run_schedule, run_each, run_listed, run_due_schedules,
}

-- The schedule `id` is marked as run.
unfoldable pub moves : Text → Event → Bool
unfolding text_eq
moves id (marked_run i next) = text_eq i id
moves id e = false

abbrev pub times : Text → List Schedule → ℕ
times id [] = 0
times id (s ∷ ss) = let rest = times id ss in if text_eq s.id id then suc rest else rest

filled : List Text → Bool
filled [] = false
filled (n ∷ ns) = true

pack-filled : (id : Text) (names : List Text) → is_pack id names ≡ true → filled names ≡ true
unfolding is_pack filled
pack-filled id [] h = h
pack-filled id (n ∷ ns) h = refl

names_or-filled :
    (id scanner : Text) (o : Option (List Text))
    → resolve_pack id ≡ o
    → filled (names_or o scanner) ≡ true
unfolding names_or filled
names_or-filled id scanner none e = refl
names_or-filled id scanner (some names) e = pack-filled id names (resolve_pack-is_pack id names e)

resolve_scanners-filled : (s : Schedule) → filled (resolve_scanners s) ≡ true
unfolding resolve_scanners filled
resolve_scanners-filled s = elim (Bool-cases (is_empty (given s.scanner_type))) [
  | inl e ↦ rw e refl
  | inr e ↦ rw e (names_or-filled (given s.scanner_type) s.scanner _ refl)
]

module _ (env : Env) (deps : SchedulerDeps) (id : Text) where
  created-Quiet :
      (target project name : Text) (o : Option Text)
      → Quiet (moves id) (enqueue_created env deps target project name o)
  unfolding enqueue_created moves
  created-Quiet target project name none = search (quiets)
  created-Quiet target project name (some s) =
      search (quiets, enqueue-Quiet env {p = moves id} (λ t. refl)) depth 12

  scans-Quiet :
      (target project : Text) (names : List Text)
      → Quiet (moves id) (enqueue_scans_for_project env deps target project names)
  unfolding enqueue_scans_for_project
  scans-Quiet target project [] = search (quiets)
  scans-Quiet target project (n ∷ ns) =
      search (quiets, created-Quiet, scans-Quiet target project ns) depth 12

  target-Quiet :
      (names : List Text) (project url : Text)
      → Quiet (moves id) (scan_target env deps names project url)
  unfolding scan_target
  target-Quiet names project url = search (quiets, scans-Quiet)

  project-Quiet :
      (names : List Text) (project : Text) (o : Option Target)
      → Quiet (moves id) (scan_project env deps names project o)
  unfolding scan_project
  project-Quiet names project none = search (quiets)
  project-Quiet names project (some p) = target-Quiet names project _

  projects-Quiet :
      (names : List Text) (ps : List Target) → Quiet (moves id) (scan_projects env deps names ps)
  unfolding scan_projects
  projects-Quiet names [] = search (quiets)
  projects-Quiet names (p ∷ ps) = search (quiets, target-Quiet, projects-Quiet names ps)

  app-Quiet :
      (names : List Text) (o : Option (List Target)) → Quiet (moves id) (scan_app env deps names o)
  unfolding scan_app
  app-Quiet names none = search (quiets)
  app-Quiet names (some ps) = projects-Quiet names ps

  process-Quiet :
      (s : Schedule) (names : List Text) → Quiet (moves id) (process_schedule env deps s names)
  unfolding process_schedule process_project_schedule process_app_schedule
  process-Quiet s names = search (quiets, project-Quiet, app-Quiet) depth 12

  update-Once :
      (s : Schedule)
      → text_eq s.id id ≡ true
      → Once (moves id) (update_schedule_next_run env deps s)
  unfolding update_schedule_next_run moves
  update-Once s h =
      Once-right (asks (λ tr. next_run env deps (deps.parse_cron s.cron_expr) (env.now tr)))
        (λ next. emit (marked_run s.id next)) (search (quiets)) (λ next. Once-emit _ h)

  update-Quiet :
      (s : Schedule)
      → text_eq s.id id ≡ false
      → Quiet (moves id) (update_schedule_next_run env deps s)
  unfolding update_schedule_next_run moves
  update-Quiet s h = search (quiets, h)

  schedule-count :
      (s : Schedule) (names : List Text) (tr : List Event)
      → filled names ≡ true
      → count (moves id) (run_schedule env deps s names tr).1
        ≡ (if text_eq s.id id then suc (count (moves id) tr) else count (moves id) tr)
  unfolding run_schedule filled
  schedule-count s [] tr f = cc
  schedule-count s (n ∷ ns) tr f = elim (Bool-cases (text_eq s.id id)) [
    | inl e ↦
        rw e (Once-count (Once-right _ _ (process-Quiet s (n ∷ ns)) (λ u. update-Once s e)) tr)
    | inr e ↦
        rw e (Quiet-count (Quiet-bind _ _ (process-Quiet s (n ∷ ns)) (λ u. update-Quiet s e)) tr)
  ]

  each-count :
      (ss : List Schedule) (tr : List Event)
      → count (moves id) (run_each env deps ss tr).1 ≡ times id ss + count (moves id) tr
  unfolding run_each ◌>>=◌ pure
  each-count [] tr = ground arith
  each-count (s ∷ ss) tr =
      let first = run_schedule env deps s (resolve_scanners s) tr in
      ground (
        arith,
        each-count ss first.1,
        schedule-count s (resolve_scanners s) tr (resolve_scanners-filled s),
      )

  -- A round marks every due schedule as run, each as often as it is due, whichever projects, scans and
  -- queue calls fail: no schedule stays due for want of a scanner.
  pub count-run_due_schedules :
      (schedules : List Schedule) (tr : List Event)
      → deps.list_due tr ≡ some schedules
      → count (moves id) (run_due_schedules env deps tr).1
        ≡ times id schedules + count (moves id) tr
  unfolding run_due_schedules run_listed ◌>>=◌ asks
  count-run_due_schedules schedules tr e = rw e (each-count schedules tr)
